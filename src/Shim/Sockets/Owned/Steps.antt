-- ===== src/Shim/Sockets/Owned/Steps.antt =====
-- The steps of the table of descriptors, and the invariant along them.
use ax88179_aroma_driver.Base.{
  ℕ, ◌≡◌, refl, some, ◌⊎◌, inl, inr, Bool, true, false, not, ◌||◌, ◌&&◌, arith, Bool-cases, ltb,
  leb, ◌==◌, if◌then◌else◌, ℤ, pos, negsuc, minus_one, eq_nat,
}
use ax88179_aroma_driver.Shim.Sockets.{
  Options, Shim, efault, Result, track_fd, untrack_fd, is_foreign, native_open, native_close,
  lwip_open, lwip_close, Answers, fresh_options, refuse_placeholder, place, noted, lwip_answer,
  socket_on, goes_native, socket,
}
use ax88179_aroma_driver.Shim.Sockets.Calls.{
  forget_native, socketclose, Address, is_inet, ftp_rewrite, BindAnswers, bind, accepted_options,
  accept_on, accept,
}
use ax88179_aroma_driver.Shim.Sockets.Owned.{
  IsOwned, change-IsOwned, same-IsOwned, attach-IsOwned, detach-IsOwned,
}

abbrev pub Holds : Shim → Type 0
Holds s = IsOwned s.open_mask s.mapped_fd s.native s.lwip s.fate s.accepting_sockets

-- A socket that is returned was not open before.
abbrev pub Fresh : (ℕ → Bool) → ℤ → Type 0
Fresh f (pos x) = f x ≡ false
Fresh f (negsuc n) = Unit

pub native_open-Holds : (s : Shim) (r : ℤ) → Holds s → Holds (native_open s r)
unfolding native_open
native_open-Holds s (negsuc n) h = h
native_open-Holds s (pos fd) h =
    same-IsOwned h _ s.accepting_sockets (λ i e own. ground (arith, h.placed i e own))

-- The new lwIP socket `x` is let go of again, closed or not.
refuse-Holds :
    (s : Shim) (o : Options) (native' : ℕ → Bool) (rc : ℤ) (x : ℕ)
    → Holds s
    → s.lwip x ≡ false
    → ((fd : ℕ) → s.accepting_sockets ≡ true → s.open_mask fd ≡ true → native' fd ≡ true)
    → Holds (lwip_close (record (lwip_open s x o) { native = native' }) rc (some x))
unfolding lwip_open lwip_close
refuse-Holds s o native' rc x h fresh n = elim (Bool-cases (eq_nat rc 0)) [
  | inl e ↦ rw e (
      change-IsOwned h native' _ _ s.accepting_sockets
        (λ fd y own m p q. let other : (x == y) ≡ false = ground arith in (rw other p, rw other q))
        (λ y p q. ground arith) n)
  | inr e ↦ rw e (
      change-IsOwned h native' _ _ s.accepting_sockets
        (λ fd y own m p q. let other : (x == y) ≡ false = ground arith in (rw other p, rw other q))
        (λ y p q. ground arith) n)
]

module _ (a : Answers) where
  place-Holds :
      (s : Shim) (o : Options) (x : ℕ) (r : ℤ)
      → Holds s
      → s.accepting_sockets ≡ true
      → s.lwip x ≡ false
      → Fresh s.native r
      → Holds (place a (lwip_open s x o) x r).2
  unfolding place lwip_open refuse_placeholder native_open native_close track_fd
  place-Holds s o x (negsuc n) h acc fresh f =
      refuse-Holds s o s.native a.lwip_close x h fresh h.placed
  place-Holds s o x (pos fd) h acc fresh f = elim (Bool-cases (leb 32 fd)) [
    | inl e ↦ rw e (elim (Bool-cases (eq_nat a.real_close 0)) [
      | inl g ↦ rw g (
          refuse-Holds s o _ a.lwip_close x h fresh
            (λ i e' own. ground (arith, h.in_range i own, h.placed i e' own)))
      | inr g ↦ rw g (
          refuse-Holds s o _ a.lwip_close x h fresh (λ i e' own. ground (arith, h.placed i e' own)))
    ])
    | inr e ↦ rw e (attach-IsOwned h fd x fresh (free (Bool-cases (s.open_mask fd))) (ground arith))
  ]
    where
      free : (s.open_mask fd ≡ true) ⊎ (s.open_mask fd ≡ false) → s.open_mask fd ≡ false
      free (inl own) = absurd (ground (arith, h.placed fd acc own))
      free (inr own) = own

  noted-Holds : (r : Result) → Holds r.2 → Holds (noted r).2
  noted-Holds (pos fd, e, s) h = h
  noted-Holds (negsuc n, e, s) h = h

  pub socket-Holds :
      (domain type : ℕ) (s : Shim)
      → Holds s
      → Fresh s.lwip (lwip_answer a type)
      → Fresh s.native a.real_socket
      → Holds (socket a domain type s).2
  unfolding socket socket_on
  socket-Holds domain type s h fl fn = elim (Bool-cases (goes_native s domain)) [
    | inl e ↦ rw e (native_open-Holds s a.real_socket h)
    | inr e ↦ rw e (go (ground arith) (lwip_answer a type) fl)
  ]
    where
      go : s.accepting_sockets ≡ true → (r : ℤ) → Fresh s.lwip r → Holds (socket_on a type s r).2
      go acc (negsuc n) f = h
      go acc (pos x) f =
          noted-Holds (place a (lwip_open s x (fresh_options type)) x a.real_socket)
            (place-Holds s (fresh_options type) x a.real_socket h acc f fn)

  pub accept-Holds :
      (nat : ℤ) (no_len : Bool) (fd : ℕ) (s : Shim)
      → Holds s
      → Fresh s.lwip a.lwip_socket
      → Fresh s.native a.real_socket
      → Holds (accept a nat no_len fd s).2
  unfolding accept accept_on
  accept-Holds nat no_len fd s h fl fn = elim (Bool-cases (is_foreign s fd)) [
    | inl e ↦ rw e (native_open-Holds s nat h)
    | inr e ↦ rw e (go (ground arith) no_len a.lwip_socket fl)
  ]
    where
      go :
          s.accepting_sockets ≡ true
          → (b : Bool) (r : ℤ) → Fresh s.lwip r
          → Holds (if b then (minus_one, efault, s) else accept_on a s r).2
      go acc true r f = h
      go acc false (negsuc n) f = h
      go acc false (pos x) f = place-Holds s accepted_options x a.real_socket h acc f fn

pub native_close-Holds :
    (s : Shim) (rc : ℤ) (fd : ℕ)
    → (s.accepting_sockets ≡ true → s.open_mask fd ≡ false)
    → Holds s
    → Holds (native_close s rc fd)
unfolding native_close
native_close-Holds s rc fd free h = elim (Bool-cases (eq_nat rc 0)) [
  | inl e ↦ rw e (
      same-IsOwned h _ s.accepting_sockets
        (λ i acc own. ground (arith, free acc, h.placed i acc own)))
  | inr e ↦ rw e h
]

forget_native-Holds : (s : Shim) (fd : ℕ) → Holds s → Holds (forget_native s fd)
unfolding forget_native
forget_native-Holds s fd h = elim (Bool-cases (ltb fd 32)) [ inl e ↦ rw e h | inr e ↦ rw e h ]

forget_native-foreign :
    (s : Shim) (fd : ℕ)
    → Holds s
    → is_foreign s fd ≡ true
    → (forget_native s fd).accepting_sockets ≡ true
    → (forget_native s fd).open_mask fd ≡ false
unfolding forget_native
forget_native-foreign s fd h foreign = elim (Bool-cases (ltb fd 32)) [
  | inl e ↦ rw e (λ acc. ground arith)
  | inr e ↦ rw e (λ acc. elim (Bool-cases (s.open_mask fd)) [
    | inl own ↦ absurd (ground (arith, h.in_range fd own))
    | inr own ↦ own
  ])
]

-- A descriptor is given up, its lwIP socket closed or left to itself.
release-Holds :
    (s : Shim) (lw : ℤ) (fd : ℕ)
    → s.open_mask fd ≡ true
    → Holds s
    → Holds (untrack_fd (lwip_close s lw (s.mapped_fd fd)) fd)
unfolding untrack_fd lwip_close
release-Holds s lw fd own h =
    let (x, m, p, q) = h.backed fd own in
    rw m (elim (Bool-cases (eq_nat lw 0)) [
      | inl e ↦ rw e (
          detach-IsOwned h s.mapped_fd s.native _ s.fate fd x own m (λ i other. refl)
            (λ y other. (rw other, refl)) (λ p' q'. absurd (ground arith)) (λ i other e' o n. n))
      | inr e ↦ rw e (
          detach-IsOwned h s.mapped_fd s.native s.lwip _ fd x own m (λ i other. refl)
            (λ y other. (refl, rw other)) (λ p' q'. absurd (ground arith)) (λ i other e' o n. n))
    ])

release_free :
    (s : Shim) (fd : ℕ)
    → (untrack_fd s fd).accepting_sockets ≡ true
    → (untrack_fd s fd).open_mask fd ≡ false
unfolding untrack_fd
release_free s fd acc = ground arith

pub socketclose-Holds :
    (lw nat : ℤ) (fd : ℕ) (s : Shim) → Holds s → Holds (socketclose lw nat fd s).2
unfolding socketclose
socketclose-Holds lw nat fd s h = elim (Bool-cases (is_foreign s fd)) [
  | inl e ↦ rw e (
      native_close-Holds (forget_native s fd) nat fd (forget_native-foreign s fd h e)
        (forget_native-Holds s fd h))
  | inr e ↦ elim (Bool-cases (eq_nat lw 0)) [
    | inl f ↦
        rw (e, f)
          (native_close-Holds (untrack_fd (lwip_close s lw (s.mapped_fd fd)) fd) nat fd
            (release_free (lwip_close s lw (s.mapped_fd fd)) fd)
            (release-Holds s lw fd (ground arith) h))
    | inr f ↦ rw (e, f) h
  ]
]

ftp_rewrite-Holds :
    (stream : Bool) (ax_ip port ip : ℕ) (s : Shim)
    → Holds s
    → Holds (ftp_rewrite stream ax_ip port ip s).1
unfolding ftp_rewrite
ftp_rewrite-Holds stream ax_ip port ip s h = elim (Bool-cases (not stream || ax_ip == 0)) [
  | inl e ↦ rw e h
  | inr e ↦ elim (Bool-cases (port == 21)) [
    | inl f ↦ rw (e, f) h
    | inr f ↦
        elim (Bool-cases (port == 0 && (s.ftp_ax_redirect_active && ip == s.ftp_native_bind_ip))) [
          | inl g ↦ rw (e, f, g) h
          | inr g ↦ rw (e, f, g) h
        ]
  ]
]

pub bind-Holds :
    (a : BindAnswers) (fd : ℕ) (addr : Address) (s : Shim) → Holds s → Holds (bind a fd addr s).2
unfolding bind
bind-Holds a fd addr s h = elim (Bool-cases (is_foreign s fd)) [
  | inl e ↦ rw e h
  | inr e ↦ elim (Bool-cases (not (is_inet addr))) [
    | inl f ↦ rw (e, f) h
    | inr f ↦ elim (Bool-cases (addr.port == 4299)) [
      | inl g ↦ rw (e, f, g) (release-Holds s a.lwip_close fd (ground arith) h)
      | inr g ↦ rw (e, f, g) (ftp_rewrite-Holds a.stream a.ax_ip addr.port addr.ip s h)
    ]
  ]
]
