-- ===== src/Shim/Sockets/Owned/Titles.antt =====
-- The invariant of the table at the start of a title and in `NSSLCreateConnection`.
use ax88179_aroma_driver.Base.{
  ℕ, ◌≡◌, refl, ap, ◌∙◌, inl, inr, Bool, true, false, not, ◌&&◌, some, arith, Bool-cases, ◌==◌,
  if◌then◌else◌, ℤ, pos, negsuc, eq_nat, is_neg,
}
use ax88179_aroma_driver.Shim.Sockets.{
  Fate, held, relayed, Shim, untrack_fd, is_foreign, native_open, native_close, lwip_close,
}
use ax88179_aroma_driver.Shim.Sockets.Titles.{
  begin_title, shim_install, release_fd, Peer, promote_ax_socket_to_native, Bridge, relay,
  bridge_on, bridge_listener, bridge_ax_socket_to_nssl, nssl_create_connection, relay_close,
}
use ax88179_aroma_driver.Shim.Sockets.Owned.{IsOwned, change-IsOwned, same-IsOwned, detach-IsOwned}
use ax88179_aroma_driver.Shim.Sockets.Owned.Steps.{
  Holds, Fresh, native_open-Holds, native_close-Holds,
}
use ax88179_aroma_driver.Shim.Sockets.Owned.Closing.{empty-IsOwned}

pub begin_title-Holds : (native lwip : ℕ → Bool) (s : Shim) → Holds (begin_title native lwip s)
unfolding begin_title
begin_title-Holds native lwip s =
    empty-IsOwned _ _ _ _ _ _ (λ fd. refl) (λ x p q. absurd (ground arith))

unowned-Holds :
    (owned : ℕ → Bool) (accepting : Bool) (s : Shim)
    → ((fd : ℕ) → owned fd ≡ false)
    → ((fd : ℕ) → s.open_mask fd ≡ false)
    → Holds s
    → IsOwned owned s.mapped_fd s.native s.lwip s.fate accepting
unowned-Holds owned accepting s none_left none_owned h =
    empty-IsOwned _ _ _ _ _ _ none_left
      (λ x p q. let (fd, own, m) = h.kept x p q in absurd (ground (arith, none_owned fd)))

-- An installation while the shim is installed and accepts changes nothing; any other wants a table
-- without descriptors.
pub shim_install-Holds :
    (installed registers : Bool) (s : Shim)
    → ((installed && s.accepting_sockets) ≡ false → (fd : ℕ) → s.open_mask fd ≡ false)
    → Holds s
    → Holds (shim_install installed registers s)
unfolding shim_install
shim_install-Holds true registers s none_owned h = elim (Bool-cases s.accepting_sockets) [
  | inl e ↦ same-IsOwned h s.native true (λ fd acc own. h.placed fd e own)
  | inr e ↦ let free = none_owned (rw e) in unowned-Holds s.open_mask true s free free h
]
shim_install-Holds false registers s none_owned h =
    unowned-Holds (λ _. false) registers s (λ fd. refl) (none_owned refl) h

-- A close of an lwIP socket that a relay has.
relayed-Holds :
    (rc : ℤ) (x : ℕ) (s : Shim) → s.fate x ≡ relayed → Holds s → Holds (lwip_close s rc (some x))
unfolding lwip_close
relayed-Holds rc x s r h = elim (Bool-cases (eq_nat rc 0)) [
  | inl e ↦ rw e (
      change-IsOwned h s.native _ s.fate s.accepting_sockets
        (λ fd y own m p q. let other : (x == y) ≡ false = ground arith in (rw other p, q))
        (λ y p q. ground arith) h.placed)
  | inr e ↦ rw e (
      change-IsOwned h s.native s.lwip _ s.accepting_sockets
        (λ fd y own m p q. let other : (x == y) ≡ false = ground arith in (p, rw other q))
        (λ y p q. ground arith) h.placed)
]

native_close-fate : (s : Shim) (rc : ℤ) (fd : ℕ) → (native_close s rc fd).fate ≡ s.fate
unfolding native_close
native_close-fate s rc fd = elim (Bool-cases (eq_nat rc 0)) [ inl e ↦ rw e | inr e ↦ rw e ]

-- The end of a relay, whose native socket is no descriptor of the shim.
pub relay_close-Holds :
    (nat lw : ℤ) (fd x : ℕ) (s : Shim)
    → s.fate x ≡ relayed
    → (s.accepting_sockets ≡ true → s.open_mask fd ≡ false)
    → Holds s
    → Holds (relay_close nat lw fd x s)
unfolding relay_close
relay_close-Holds nat lw fd x s r free h =
    relayed-Holds lw x (native_close s nat fd)
      (ap (λ (f : ℕ → Fate). f x) (native_close-fate s nat fd) ∙ r)
      (native_close-Holds s nat fd free h)

-- The descriptor is the title's again, and the lwIP socket behind it closed.
promoted-Holds :
    (rc : ℤ) (fd : ℕ) (s : Shim)
    → s.open_mask fd ≡ true
    → Holds s
    → Holds (lwip_close (release_fd fd s) rc (s.mapped_fd fd))
unfolding release_fd untrack_fd lwip_close
promoted-Holds rc fd s own h =
    let (x, m, p, q) = h.backed fd own in
    rw m (elim (Bool-cases (eq_nat rc 0)) [
      | inl e ↦ rw e (
          detach-IsOwned h _ s.native _ s.fate fd x own m (λ i other. rw other)
            (λ y other. (rw other, refl)) (λ p' q'. absurd (ground arith)) (λ i other e' o n. n))
      | inr e ↦ rw e (
          detach-IsOwned h _ s.native s.lwip _ fd x own m (λ i other. rw other)
            (λ y other. (refl, rw other)) (λ p' q'. absurd (ground arith)) (λ i other e' o n. n))
    ])

-- A test that leaves with the table as it is.
guard-Holds :
    (b : Bool) (r r' : ℤ × Shim)
    → Holds r.1
    → (b ≡ false → Holds r'.1)
    → Holds (if b then r else r').1
guard-Holds true r r' h k = h
guard-Holds false r r' h k = k refl

promote-Holds :
    (p : Peer) (fd : ℕ) (s : Shim) → Holds s → Holds (promote_ax_socket_to_native p fd s).1
unfolding promote_ax_socket_to_native
promote-Holds p fd s h = guard-Holds (is_foreign s fd) _ _ h (λ own.
    guard-Holds (not (eq_nat p.getpeername 0)) _ _ h (λ e.
      guard-Holds (not (p.family == 2)) _ _ h (λ e'.
        guard-Holds (not (eq_nat p.real_connect 0)) _ _ h
          (λ e''. promoted-Holds p.lwip_close fd s (ground arith) h))))

-- The descriptor is the title's again, and the lwIP socket behind it the relay's.
relay-Holds :
    (accepted : ℤ) (fd : ℕ) (s : Shim)
    → s.open_mask fd ≡ true
    → Holds s
    → Holds (relay accepted fd s).1
unfolding relay release_fd untrack_fd native_open
relay-Holds accepted fd s own h = go accepted (h.backed fd own)
  where
    go :
        (r : ℤ)
        → (x : ℕ) × (s.mapped_fd fd ≡ some x) × (s.lwip x ≡ true) × (s.fate x ≡ held)
        → Holds (relay r fd s).1
    go (negsuc n) (x, m, p, q) = rw m (
        detach-IsOwned h _ s.native s.lwip _ fd x own m (λ i other. rw other)
          (λ y other. (refl, rw other)) (λ p' q'. absurd (ground arith)) (λ i other e' o n'. n'))
    go (pos c) (x, m, p, q) = rw m (
        detach-IsOwned h _ _ s.lwip _ fd x own m (λ i other. rw other) (λ y other. (refl, rw other))
          (λ p' q'. absurd (ground arith)) (λ i other e' o n'. ground arith))

listened-open_mask :
    (s : Shim) (rc : ℤ) (l : ℕ)
    → (native_close (native_open s (pos l)) rc l).open_mask ≡ s.open_mask
unfolding native_close native_open
listened-open_mask s rc l = elim (Bool-cases (eq_nat rc 0)) [ inl e ↦ rw e | inr e ↦ rw e ]

-- The listener is opened and closed again.
listened-Holds :
    (s : Shim) (rc : ℤ) (l : ℕ)
    → s.native l ≡ false
    → Holds s
    → Holds (native_close (native_open s (pos l)) rc l)
unfolding native_open
listened-Holds s rc l fresh h =
    native_close-Holds (native_open s (pos l)) rc l (free (native_open-Holds s (pos l) h))
      (native_open-Holds s (pos l) h)
  where
    free :
        Holds (native_open s (pos l))
        → (native_open s (pos l)).accepting_sockets ≡ true
        → (native_open s (pos l)).open_mask l ≡ false
    free k acc = elim (Bool-cases (s.open_mask l)) [
      | inl own ↦ absurd (ground (arith, h.placed l acc own))
      | inr own ↦ own
    ]

bridge_on-Holds :
    (b : Bridge) (fd l : ℕ) (s : Shim)
    → s.open_mask fd ≡ true
    → s.native l ≡ false
    → Holds s
    → Holds (bridge_on b fd l s).1
unfolding bridge_on
bridge_on-Holds b fd l s own fresh h = elim (Bool-cases (not (eq_nat b.inet_pton 1))) [
  | inl e ↦ rw e k
  | inr e ↦ elim (Bool-cases (not (eq_nat b.real_bind 0))) [
    | inl f ↦ rw (e, f) k
    | inr f ↦ elim (Bool-cases (not (eq_nat b.real_listen 0))) [
      | inl g ↦ rw (e, f, g) k
      | inr g ↦ elim (Bool-cases (not (eq_nat b.real_getsockname 0))) [
        | inl u ↦ rw (e, f, g, u) k
        | inr u ↦ elim (Bool-cases (not (eq_nat b.real_connect 0))) [
          | inl v ↦ rw (e, f, g, u, v) k
          | inr v ↦ elim (Bool-cases (is_neg b.accepted)) [
            | inl w ↦ rw (e, f, g, u, v, w) k
            | inr w ↦
                rw (e, f, g, u, v, w)
                  (relay-Holds b.accepted fd closed
                    (ap (λ (f : ℕ → Bool). f fd) (listened-open_mask s b.real_close l) ∙ own) k)
          ]
        ]
      ]
    ]
  ]
]
  where
    closed : Shim
    closed = native_close (native_open s (pos l)) b.real_close l

    k : Holds closed
    k = listened-Holds s b.real_close l fresh h

bridge_listener-Holds :
    (b : Bridge) (fd : ℕ) (s : Shim) (r : ℤ)
    → s.open_mask fd ≡ true
    → Fresh s.native r
    → Holds s
    → Holds (bridge_listener b fd s r).1
unfolding bridge_listener
bridge_listener-Holds b fd s (negsuc n) own fresh h = h
bridge_listener-Holds b fd s (pos l) own fresh h = bridge_on-Holds b fd l s own fresh h

bridge-Holds :
    (b : Bridge) (fd : ℕ) (s : Shim)
    → Fresh s.native b.listener
    → Holds s
    → Holds (bridge_ax_socket_to_nssl b fd s).1
unfolding bridge_ax_socket_to_nssl
bridge-Holds b fd s fresh h = guard-Holds (is_foreign s fd) _ _ h (λ own.
    guard-Holds (not (eq_nat b.getpeername 0)) _ _ h (λ e.
      guard-Holds (not (b.family == 2)) _ _ h (λ e'.
        guard-Holds (not b.has_slot) _ _ h
          (λ e''. bridge_listener-Holds b fd s b.listener (ground arith) fresh h))))

-- `NSSLCreateConnection`, whatever the stacks answer.
pub nssl_create_connection-Holds :
    (bridged : Bool) (b : Bridge) (p : Peer) (fd : ℕ) (s : Shim)
    → Fresh s.native b.listener
    → Holds s
    → Holds (nssl_create_connection bridged b p fd s).1
unfolding nssl_create_connection
nssl_create_connection-Holds true b p fd s fresh h = bridge-Holds b fd s fresh h
nssl_create_connection-Holds false b p fd s fresh h = promote-Holds p fd s h
