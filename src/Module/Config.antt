-- ===== src/Module/Config.antt =====
-- aroma_module/main.c: the settings, `load_config`. A file is the list of its bytes, none of them 0; the
-- files that `fopen` opens are an argument. `strstr` and `fgets` are modelled, and `sscanf` for the one
-- format that is used; a number that leaves an int is clamped with the others.
pub mod Last
mod Tests
use ax88179_aroma_driver.Base.{
  ℕ, ◌+◌, ◌-◌, ◌*◌, Bool, true, false, ◌&&◌, ◌||◌, Option, none, some, Bytes, List, [], ◌∷◌, ltb,
  leb, ◌==◌, if◌then◌else◌, ℤ, pos, negsuc,
}
use ax88179_aroma_driver.Module.Worker.{Config}

-- "mode=always"
abbrev pub mode_always : Bytes
mode_always = 109 ∷ 111 ∷ 100 ∷ 101 ∷ 61 ∷ 97 ∷ 108 ∷ 119 ∷ 97 ∷ 121 ∷ 115 ∷ []

-- "mode=keep_first"
abbrev pub mode_keep_first : Bytes
mode_keep_first =
    109 ∷ 111 ∷ 100 ∷ 101 ∷ 61 ∷ 107 ∷ 101 ∷ 101 ∷ 112 ∷ 95 ∷ 102 ∷ 105 ∷ 114 ∷ 115 ∷ 116 ∷ []

-- "dns=system"
abbrev pub dns_system : Bytes
dns_system = 100 ∷ 110 ∷ 115 ∷ 61 ∷ 115 ∷ 121 ∷ 115 ∷ 116 ∷ 101 ∷ 109 ∷ []

-- "dns=ax"
abbrev pub dns_ax : Bytes
dns_ax = 100 ∷ 110 ∷ 115 ∷ 61 ∷ 97 ∷ 120 ∷ []

-- "route=native"
abbrev pub route_native : Bytes
route_native = 114 ∷ 111 ∷ 117 ∷ 116 ∷ 101 ∷ 61 ∷ 110 ∷ 97 ∷ 116 ∷ 105 ∷ 118 ∷ 101 ∷ []

-- "route=ax"
abbrev pub route_ax : Bytes
route_ax = 114 ∷ 111 ∷ 117 ∷ 116 ∷ 101 ∷ 61 ∷ 97 ∷ 120 ∷ []

-- "nssl=bridge"
abbrev pub nssl_bridge_on : Bytes
nssl_bridge_on = 110 ∷ 115 ∷ 115 ∷ 108 ∷ 61 ∷ 98 ∷ 114 ∷ 105 ∷ 100 ∷ 103 ∷ 101 ∷ []

-- "nssl=native"
abbrev pub nssl_native : Bytes
nssl_native = 110 ∷ 115 ∷ 115 ∷ 108 ∷ 61 ∷ 110 ∷ 97 ∷ 116 ∷ 105 ∷ 118 ∷ 101 ∷ []

-- "ftp_handoff=on"
abbrev pub ftp_on : Bytes
ftp_on = 102 ∷ 116 ∷ 112 ∷ 95 ∷ 104 ∷ 97 ∷ 110 ∷ 100 ∷ 111 ∷ 102 ∷ 102 ∷ 61 ∷ 111 ∷ 110 ∷ []

-- "ftp_handoff=off"
abbrev pub ftp_off : Bytes
ftp_off = 102 ∷ 116 ∷ 112 ∷ 95 ∷ 104 ∷ 97 ∷ 110 ∷ 100 ∷ 111 ∷ 102 ∷ 102 ∷ 61 ∷ 111 ∷ 102 ∷ 102 ∷ []

-- "wiiload_proxy=on"
abbrev pub proxy_on : Bytes
proxy_on =
    119 ∷ 105 ∷ 105 ∷ 108 ∷ 111 ∷ 97 ∷ 100 ∷ 95 ∷ 112 ∷ 114 ∷ 111 ∷ 120 ∷ 121 ∷ 61 ∷ 111 ∷ 110 ∷ []

-- "wiiload_proxy=off"
abbrev pub proxy_off : Bytes
proxy_off =
    119 ∷ 105 ∷ 105 ∷ 108 ∷ 111 ∷ 97 ∷ 100 ∷ 95 ∷ 112 ∷ 114 ∷ 111 ∷ 120 ∷ 121 ∷ 61 ∷ 111 ∷ 102 ∷ 102
    ∷ []

-- "wiiload_handoff=on"
abbrev pub handoff_on : Bytes
handoff_on =
    119 ∷ 105 ∷ 105 ∷ 108 ∷ 111 ∷ 97 ∷ 100 ∷ 95 ∷ 104 ∷ 97 ∷ 110 ∷ 100 ∷ 111 ∷ 102 ∷ 102 ∷ 61 ∷ 111
    ∷ 110 ∷ []

-- "wiiload_handoff=off"
abbrev pub handoff_off : Bytes
handoff_off =
    119 ∷ 105 ∷ 105 ∷ 108 ∷ 111 ∷ 97 ∷ 100 ∷ 95 ∷ 104 ∷ 97 ∷ 110 ∷ 100 ∷ 111 ∷ 102 ∷ 102 ∷ 61 ∷ 111
    ∷ 102 ∷ 102 ∷ []

-- "shim_trace="
abbrev pub trace_text : Bytes
trace_text = 115 ∷ 104 ∷ 105 ∷ 109 ∷ 95 ∷ 116 ∷ 114 ∷ 97 ∷ 99 ∷ 101 ∷ 61 ∷ []

-- The statics as they are set up.
abbrev pub defaults : Config
defaults = record {
  keep_first = true;
  shim_trace = 0;
  system_dns = false;
  force_native = false;
  nssl_bridge = false;
  ftp_handoff = true;
  wiiload_proxy = false;
}

-- What follows a text at the start of a line.
unfoldable pub past : Bytes → Bytes → Option Bytes
past [] line = some line
past (p ∷ ps) [] = none
past (p ∷ ps) (b ∷ bs) = let rest = past ps bs in if p == b then rest else none

abbrev pub is_some : Option Bytes → Bool
is_some none = false
is_some (some x) = true

-- `strstr`, as a test.
unfoldable pub has : Bytes → Bytes → Bool
has p [] = is_some (past p [])
has p (b ∷ bs) = is_some (past p (b ∷ bs)) || has p bs

-- The lines as `fgets` gives them into 128 bytes, with `room` bytes left for the first.
abbrev pub push : ℕ → List Bytes → List Bytes
push b [] = (b ∷ []) ∷ []
push b (l ∷ ls) = (b ∷ l) ∷ ls

unfoldable pub lines : ℕ → Bytes → List Bytes
lines room [] = []
lines room (b ∷ bs) =
    let next = lines 127 bs in
    let same = lines (room - 1) bs in if b == 10 || leb room 1 then (b ∷ []) ∷ next else push b same

-- "%d"
abbrev pub is_digit : ℕ → Bool
is_digit b = leb 48 b && leb b 57

unfoldable pub digits : ℕ → Bytes → ℕ
digits n [] = n
digits n (b ∷ bs) = let rest = digits (10 * n + (b - 48)) bs in if is_digit b then rest else n

unfoldable pub unsigned : Bytes → Option ℕ
unfolding digits
unsigned [] = none
unsigned (b ∷ bs) = if is_digit b then some (digits 0 (b ∷ bs)) else none

-- The level that a number stands for, between 0 and 2.
abbrev pub clamp : Bool → Option ℕ → Option ℕ
clamp negative none = none
clamp negative (some n) = some (if negative then 0 else if ltb 2 n then 2 else n)

-- Behind the blanks, with the sign.
unfoldable pub signed : ℕ → Bytes → Option ℕ
unfolding unsigned
signed b bs =
    if b == 45
    then clamp true (unsigned bs)
    else clamp false (if b == 43 then unsigned bs else unsigned (b ∷ bs))

abbrev pub is_space : ℕ → Bool
is_space b = b == 32 || (leb 9 b && leb b 13)

unfoldable pub number : Bytes → Option ℕ
unfolding signed
number [] = none
number (b ∷ bs) = let rest = number bs in if is_space b then rest else signed b bs

abbrev pub number_past : Option Bytes → Option ℕ
number_past none = none
number_past (some rest) = number rest

-- What a line says of the level.
unfoldable pub level : Bytes → Option ℕ
unfolding past number
level line = number_past (past trace_text line)

abbrev pub get_or : {A : Type 0} → Option A → A → A
get_or none a = a
get_or (some b) a = b

-- A round of the loop over the lines.
unfoldable pub read_line : Bytes → Config → Config
unfolding has level
read_line b c = record {
  keep_first =
      if has mode_always b then false else if has mode_keep_first b then true else c.keep_first;
  system_dns = if has dns_system b then true else if has dns_ax b then false else c.system_dns;
  force_native =
      if has route_native b then true else if has route_ax b then false else c.force_native;
  nssl_bridge =
      if has nssl_bridge_on b then true else if has nssl_native b then false else c.nssl_bridge;
  ftp_handoff = if has ftp_on b then true else if has ftp_off b then false else c.ftp_handoff;
  wiiload_proxy =
      if has proxy_on b || has handoff_on b
      then true
      else if has proxy_off b || has handoff_off b
      then false
      else c.wiiload_proxy;
  shim_trace = get_or (level b) c.shim_trace;
}

unfoldable pub read_lines : List Bytes → Config → Config
unfolding read_line
read_lines [] c = c
read_lines (b ∷ bs) c = read_lines bs (read_line b c)

-- `load_config`, with what is in the first of the three files that opens.
unfoldable pub load_config : Option Bytes → Config → Config
unfolding lines read_lines
load_config none c = c
load_config (some file) c = read_lines (lines 127 file) c
