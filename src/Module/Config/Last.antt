-- ===== src/Module/Config/Last.antt =====
-- Which line decides a setting.
use ax88179_aroma_driver.Base.{
  ℕ, ◌≤◌, ◌≡◌, refl, ◌∙◌, ap, arith, Bool, true, false, not, ◌||◌, Option, none, some, Bytes, inl,
  inr, Bool-cases, List, [], ◌∷◌, if◌then◌else◌, ◌==◌,
}
use ax88179_aroma_driver.Module.Worker.{Config}
use ax88179_aroma_driver.Module.Config.{
  mode_always, mode_keep_first, dns_system, dns_ax, route_native, route_ax, nssl_bridge_on,
  nssl_native, ftp_on, ftp_off, proxy_on, proxy_off, handoff_on, handoff_off, trace_text, past, has,
  lines, unsigned, clamp, signed, is_space, number, number_past, level, get_or, read_line,
  read_lines, load_config,
}

-- What a line asks of a setting with two texts: the first one decides if both are there.
abbrev pub choice : Bool → Bool → Bool → Option Bool
choice value first second = if first then some value else if second then some (not value) else none

abbrev pub later : {A : Type 0} → Option A → Option A → Option A
later none a = a
later (some b) a = some b

-- What the last line that asks for something asks for.
abbrev pub last : {A : Type 0} → (Bytes → Option A) → List Bytes → Option A
last f [] = none
last f (l ∷ ls) = later (last f ls) (f l)

-- The settings that the lines of a file ask for, each by itself.
abbrev pub asked : List Bytes → Config → Config
asked ls c = record {
  keep_first =
      get_or (last (λ l. choice false (has mode_always l) (has mode_keep_first l)) ls) c.keep_first;
  system_dns = get_or (last (λ l. choice true (has dns_system l) (has dns_ax l)) ls) c.system_dns;
  force_native =
      get_or (last (λ l. choice true (has route_native l) (has route_ax l)) ls) c.force_native;
  nssl_bridge =
      get_or (last (λ l. choice true (has nssl_bridge_on l) (has nssl_native l)) ls) c.nssl_bridge;
  ftp_handoff = get_or (last (λ l. choice true (has ftp_on l) (has ftp_off l)) ls) c.ftp_handoff;
  wiiload_proxy =
      get_or
        (last
          (λ l.
            choice true (has proxy_on l || has handoff_on l) (has proxy_off l || has handoff_off l))
          ls)
        c.wiiload_proxy;
  shim_trace = get_or (last level ls) c.shim_trace;
}

later-get_or : {A : Type 0} (x y : Option A) (a : A) → get_or x (get_or y a) ≡ get_or (later x y) a
later-get_or none y a = refl
later-get_or (some b) y a = refl

choice-get_or :
    (value first second old : Bool)
    → (if first then value else if second then not value else old)
      ≡ get_or (choice value first second) old
choice-get_or value true second old = refl
choice-get_or value false true old = refl
choice-get_or value false false old = refl

read_line-asked : (l : Bytes) (c : Config) → read_line l c ≡ asked (l ∷ []) c
unfolding read_line
read_line-asked l c = λ i. record {
  keep_first = choice-get_or false (has mode_always l) (has mode_keep_first l) c.keep_first i;
  system_dns = choice-get_or true (has dns_system l) (has dns_ax l) c.system_dns i;
  force_native = choice-get_or true (has route_native l) (has route_ax l) c.force_native i;
  nssl_bridge = choice-get_or true (has nssl_bridge_on l) (has nssl_native l) c.nssl_bridge i;
  ftp_handoff = choice-get_or true (has ftp_on l) (has ftp_off l) c.ftp_handoff i;
  wiiload_proxy =
      choice-get_or true (has proxy_on l || has handoff_on l) (has proxy_off l || has handoff_off l)
        c.wiiload_proxy i;
  shim_trace = get_or (level l) c.shim_trace;
}

asked-asked :
    (l : Bytes) (ls : List Bytes) (c : Config) → asked ls (asked (l ∷ []) c) ≡ asked (l ∷ ls) c
asked-asked l ls c = λ i. record {
  keep_first =
      later-get_or (last (λ l. choice false (has mode_always l) (has mode_keep_first l)) ls)
        (choice false (has mode_always l) (has mode_keep_first l)) c.keep_first i;
  system_dns =
      later-get_or (last (λ l. choice true (has dns_system l) (has dns_ax l)) ls)
        (choice true (has dns_system l) (has dns_ax l)) c.system_dns i;
  force_native =
      later-get_or (last (λ l. choice true (has route_native l) (has route_ax l)) ls)
        (choice true (has route_native l) (has route_ax l)) c.force_native i;
  nssl_bridge =
      later-get_or (last (λ l. choice true (has nssl_bridge_on l) (has nssl_native l)) ls)
        (choice true (has nssl_bridge_on l) (has nssl_native l)) c.nssl_bridge i;
  ftp_handoff =
      later-get_or (last (λ l. choice true (has ftp_on l) (has ftp_off l)) ls)
        (choice true (has ftp_on l) (has ftp_off l)) c.ftp_handoff i;
  wiiload_proxy =
      later-get_or
        (last
          (λ l.
            choice true (has proxy_on l || has handoff_on l) (has proxy_off l || has handoff_off l))
          ls)
        (choice true (has proxy_on l || has handoff_on l) (has proxy_off l || has handoff_off l))
        c.wiiload_proxy i;
  shim_trace = later-get_or (last level ls) (level l) c.shim_trace i;
}

read_lines-asked : (ls : List Bytes) (c : Config) → read_lines ls c ≡ asked ls c
unfolding read_lines
read_lines-asked [] c = refl
read_lines-asked (l ∷ ls) c =
    read_lines-asked ls (read_line l c) ∙ (ap (asked ls) (read_line-asked l c) ∙ asked-asked l ls c)

-- The level is in range.
abbrev IsLevel : Option ℕ → Type 0
IsLevel none = Unit
IsLevel (some n) = n ≤ 2

clamp-IsLevel : (b : Bool) (o : Option ℕ) → IsLevel (clamp b o)
clamp-IsLevel b none = tt
clamp-IsLevel true (some n) = omega arith
clamp-IsLevel false (some n) = ground arith

signed-IsLevel : (b : ℕ) (bs : Bytes) → IsLevel (signed b bs)
unfolding signed
signed-IsLevel b bs = elim (Bool-cases (b == 45)) [
  | inl e ↦ rw e (clamp-IsLevel true (unsigned bs))
  | inr e ↦ rw e (clamp-IsLevel false _)
]

number-IsLevel : (b : Bytes) → IsLevel (number b)
unfolding number
number-IsLevel [] = tt
number-IsLevel (b ∷ bs) = elim (Bool-cases (is_space b)) [
  | inl e ↦ rw e (number-IsLevel bs)
  | inr e ↦ rw e (signed-IsLevel b bs)
]

number_past-IsLevel : (o : Option Bytes) → IsLevel (number_past o)
number_past-IsLevel none = tt
number_past-IsLevel (some b) = number-IsLevel b

level-IsLevel : (b : Bytes) → IsLevel (level b)
unfolding level
level-IsLevel b = number_past-IsLevel (past trace_text b)

later-IsLevel : (x y : Option ℕ) → IsLevel x → IsLevel y → IsLevel (later x y)
later-IsLevel none y h k = k
later-IsLevel (some n) y h k = h

last-IsLevel : (ls : List Bytes) → IsLevel (last level ls)
last-IsLevel [] = tt
last-IsLevel (l ∷ ls) = later-IsLevel (last level ls) (level l) (last-IsLevel ls) (level-IsLevel l)

get_or-bounded : (o : Option ℕ) (n : ℕ) → IsLevel o → n ≤ 2 → get_or o n ≤ 2
get_or-bounded none n h k = k
get_or-bounded (some m) n h k = h

-- `load_config`, of a file that opens: each setting is what the last line that has one of its texts asks
-- for, whatever other lines say, or what it was where none has; in a line with both of its texts the one
-- that the code looks for first decides, and a line is cut behind 127 bytes. The level of the trace is at
-- most 2 whatever number the file has, if it was.
pub load_config-asked :
    (file : Bytes) (c : Config)
    → c.shim_trace ≤ 2
    → (load_config (some file) c ≡ asked (lines 127 file) c)
      × ((load_config (some file) c).shim_trace ≤ 2)
unfolding load_config
load_config-asked file c h =
    let same = read_lines-asked (lines 127 file) c in
    (same, rw same (get_or-bounded _ _ (last-IsLevel (lines 127 file)) h))
