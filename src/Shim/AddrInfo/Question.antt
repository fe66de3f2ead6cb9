-- ===== src/Shim/AddrInfo/Question.antt =====
-- aroma_module/nsysnet_shim.c: what `shim_getaddrinfo_sync` asks lwIP for. A name is its bytes without the
-- 0 at the end, and a null pointer is `none`.
use ax88179_aroma_driver.Base.{
  ℕ, ◌+◌, ◌<◌, ◌≡◌, ◌⊎◌, inl, inr, refl, arith, Bool, true, false, Option, none, some, Bytes, List,
  [], ◌∷◌, ◌==◌, if◌then◌else◌, ℤ, bit, Bool-cases,
}
use ax88179_aroma_driver.Shim.AddrInfo.{Entry, Results, Reply, getaddrinfo_sync}

-- The hints of a title, and lwIP's.
record Hints : Type 0 where
  pub flags : ℕ
  pub family : ℤ
  pub socktype : ℤ
  pub protocol : ℤ

abbrev flag : Bool → ℕ → ℕ
flag b n = if b then n else 0

-- The flags from their bits. Those of lwIP share none, so that `|=` is a sum.
abbrev pack : Bool → Bool → Bool → Bool → Bool → Bool → ℕ
pack passive canonname numerichost v4mapped all addrconfig =
    flag passive 0x01
    + (flag canonname 0x02
        + (flag numerichost 0x04 + (flag v4mapped 0x10 + (flag all 0x20 + flag addrconfig 0x40))))

-- `ai_flags_to_lwip`
unfoldable ai_flags_to_lwip : ℕ → ℕ
ai_flags_to_lwip f = pack (bit f 0) (bit f 1) (bit f 2) (bit f 3) (bit f 4) (bit f 5)

unfoldable hints_to_lwip : Option Hints → Option Hints
unfolding ai_flags_to_lwip
hints_to_lwip none = none
hints_to_lwip (some h) = some (record h { flags = ai_flags_to_lwip h.flags })

-- `strcmp`, as a test for equal texts.
unfoldable same_text : Bytes → Bytes → Bool
same_text [] [] = true
same_text [] (b ∷ bs) = false
same_text (a ∷ xs) [] = false
same_text (a ∷ xs) (b ∷ bs) = let rest = same_text xs bs in if a == b then rest else false

-- "nncs1.app.nintendowifi.net" and "nncs2.app.nintendowifi.net"
abbrev nncs1 : Bytes
nncs1 =
    110 ∷ 110 ∷ 99 ∷ 115 ∷ 49 ∷ 46 ∷ 97 ∷ 112 ∷ 112 ∷ 46 ∷ 110 ∷ 105 ∷ 110 ∷ 116 ∷ 101 ∷ 110 ∷ 100
    ∷ 111 ∷ 119 ∷ 105 ∷ 102 ∷ 105 ∷ 46 ∷ 110 ∷ 101 ∷ 116 ∷ []

abbrev nncs2 : Bytes
nncs2 =
    110 ∷ 110 ∷ 99 ∷ 115 ∷ 50 ∷ 46 ∷ 97 ∷ 112 ∷ 112 ∷ 46 ∷ 110 ∷ 105 ∷ 110 ∷ 116 ∷ 101 ∷ 110 ∷ 100
    ∷ 111 ∷ 119 ∷ 105 ∷ 102 ∷ 105 ∷ 46 ∷ 110 ∷ 101 ∷ 116 ∷ []

-- "nncs1.app.pretendo.cc" and "nncs2.app.pretendo.cc"
abbrev pretendo1 : Bytes
pretendo1 =
    110 ∷ 110 ∷ 99 ∷ 115 ∷ 49 ∷ 46 ∷ 97 ∷ 112 ∷ 112 ∷ 46 ∷ 112 ∷ 114 ∷ 101 ∷ 116 ∷ 101 ∷ 110 ∷ 100
    ∷ 111 ∷ 46 ∷ 99 ∷ 99 ∷ []

abbrev pretendo2 : Bytes
pretendo2 =
    110 ∷ 110 ∷ 99 ∷ 115 ∷ 50 ∷ 46 ∷ 97 ∷ 112 ∷ 112 ∷ 46 ∷ 112 ∷ 114 ∷ 101 ∷ 116 ∷ 101 ∷ 110 ∷ 100
    ∷ 111 ∷ 46 ∷ 99 ∷ 99 ∷ []

-- `dns_rewrite_name`
unfoldable dns_rewrite_name : Option Bytes → Option Bytes
unfolding same_text
dns_rewrite_name none = none
dns_rewrite_name (some name) =
    if same_text name nncs1
    then some pretendo1
    else if same_text name nncs2
    then some pretendo2
    else some name

-- `shim_getaddrinfo_sync`, with lwIP's answer to what it is asked.
unfoldable shim_getaddrinfo_sync :
    (Option Bytes → Option Bytes → Option Hints → ℕ × List (Entry × Option ℕ))
    → Option Bytes
    → Option Bytes
    → Option Hints
    → Results
    → Option Reply
unfolding hints_to_lwip dns_rewrite_name
shim_getaddrinfo_sync lwip_getaddrinfo node service hints s =
    let (err, found) = lwip_getaddrinfo (dns_rewrite_name node) service (hints_to_lwip hints) in
    getaddrinfo_sync err found s

pack-bits :
    (a b c d e f : Bool)
    → let r = pack a b c d e f in
      (bit r 0 ≡ a)
      × (bit r 1 ≡ b)
      × (bit r 2 ≡ c)
      × (bit r 3 ≡ false)
      × (bit r 4 ≡ d)
      × (bit r 5 ≡ e)
      × (bit r 6 ≡ f)
      × (r < 128)
pack-bits a b c d e f = ground arith

-- Each of the six flags of a title goes to the bit that it has in lwIP, and no other bit is set.
ai_flags_to_lwip-bits :
    (f : ℕ)
    → let r = ai_flags_to_lwip f in
      (bit r 0 ≡ bit f 0)
      × (bit r 1 ≡ bit f 1)
      × (bit r 2 ≡ bit f 2)
      × (bit r 3 ≡ false)
      × (bit r 4 ≡ bit f 3)
      × (bit r 5 ≡ bit f 4)
      × (bit r 6 ≡ bit f 5)
      × (r < 128)
unfolding ai_flags_to_lwip
ai_flags_to_lwip-bits f = pack-bits (bit f 0) (bit f 1) (bit f 2) (bit f 3) (bit f 4) (bit f 5)

same_text-eq : (a b : Bytes) → same_text a b ≡ true → a ≡ b
unfolding same_text
same_text-eq [] [] h = refl
same_text-eq [] (b ∷ bs) h = cc
same_text-eq (a ∷ xs) [] h = cc
same_text-eq (a ∷ xs) (b ∷ bs) h = ground (arith, same_text-eq xs bs)

-- A name that is changed is one of the two, and goes to its own replacement.
dns_rewrite_name-cases :
    (name : Bytes)
    → (dns_rewrite_name (some name) ≡ some name)
      ⊎ ((name ≡ nncs1) × (dns_rewrite_name (some name) ≡ some pretendo1))
      ⊎ ((name ≡ nncs2) × (dns_rewrite_name (some name) ≡ some pretendo2))
unfolding dns_rewrite_name
dns_rewrite_name-cases name = elim (Bool-cases (same_text name nncs1)) [
  | inl e ↦ rw e (inr (inl (same_text-eq name nncs1 e, refl)))
  | inr n ↦ elim (Bool-cases (same_text name nncs2)) [
    | inl e ↦ rw (n, e) (inr (inr (same_text-eq name nncs2 e, refl)))
    | inr m ↦ rw (n, m) (inl refl)
  ]
]
