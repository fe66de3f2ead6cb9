-- ===== src/Driver/Lifetime/Balanced.antt =====
-- The resources of UHS over `ax88179_open` and `ax88179_close`.
use ax88179_aroma_driver.Base.{
  ℕ, ◌+◌, ◌%◌, ◌^◌, ◌≡◌, refl, sym, ◌∙◌, ap, inl, inr, Bool, true, false, not, ◌||◌, ◌&&◌, Option,
  none, some, List, [], ◌∷◌, ◌++◌, is_neg, ◌==◌, if◌then◌else◌, Bool-cases, arith,
}
use ax88179_aroma_driver.Driver.Control.{Ax, Device, mac_write16}
use ax88179_aroma_driver.Driver.Link.{reg_rx_ctl, rx_ctl_default}
use ax88179_aroma_driver.Driver.BringUp.{bring_up}
use ax88179_aroma_driver.Driver.Endpoints.{Endpoints, find_endpoints}
use ax88179_aroma_driver.Driver.Lifetime.{
  Module, Event, client_opened, client_closed, acquired, released, enabled, cancelled, disabled,
  Answers, Opened, Done, close_log, no_endpoints, none_found, close_adapter, start_rx, enable_out,
  enable_in, after_bring_up, with_client, open_adapter,
}

-- What is held: the client, the interface, and the mask of enabled endpoints.
pub record Held : Type 0 where
  pub client : Bool
  pub interface : Bool
  pub mask : ℕ

abbrev pub nothing : Held
nothing = record { client = false; interface = false; mask = 0 }

abbrev pub all_of : Opened → Held
all_of o = record { client = true; interface = true; mask = o.enabled_eps }

-- One call, where it is in order: the client is opened once and closed after the interface is
-- released, the interface is acquired with a client and released with no endpoint enabled, and the
-- endpoints that are disabled are all that are enabled.
abbrev pub apply : Event → Held → Option Held
apply client_opened h = if h.client then none else some (record h { client = true })
apply client_closed h =
    if h.client && not h.interface then some (record h { client = false }) else none
apply acquired h =
    if h.client && not h.interface then some (record h { interface = true }) else none
apply released h =
    if h.interface && h.mask == 0 then some (record h { interface = false }) else none
apply (enabled m) h = if h.interface then some (record h { mask = h.mask + m }) else none
apply (cancelled m) h = if h.interface then some h else none
apply (disabled m) h = if h.interface && h.mask == m then some (record h { mask = 0 }) else none

abbrev pub replay : List Event → Option Held → Option Held
replay es none = none
replay [] (some h) = some h
replay (e ∷ es) (some h) = replay es (apply e h)

replay-none : (es : List Event) → replay es none ≡ none
replay-none [] = refl
replay-none (e ∷ es) = refl

pub replay-append :
    (es fs : List Event) (h : Option Held) → replay (es ++ fs) h ≡ replay fs (replay es h)
replay-append es fs none = replay-none (es ++ fs) ∙ sym (replay-none fs)
replay-append [] fs (some h) = refl
replay-append (e ∷ es) fs (some h) = replay-append es fs (apply e h)

-- What the end of `ax88179_open` means: an error holds nothing, and leaves the flag as it was; a
-- success was not open before, and holds the client, the interface and the endpoints, which
-- `ax88179_close` gives back in order.
abbrev pub Settled : Bool → Option Opened → List Event → Bool → Type 0
Settled was none log is = (replay log (some nothing) ≡ some nothing) × (is ≡ was)
Settled was (some o) log is =
    (was ≡ false)
    × (replay log (some nothing) ≡ some (all_of o))
    × (is ≡ true)
    × (o.enabled_eps ≡ o.eps.ep_in_mask + o.eps.ep_out_mask)
    × (replay (close_log o) (some (all_of o)) ≡ some nothing)

abbrev pub IsSettled : {W : Type 0} → Module → Done W → Type 0
IsSettled m d = Settled m.is_open d.result d.log d.left.is_open

abbrev with_mask : ℕ → Held
with_mask m = record { client = true; interface = true; mask = m }

cancels :
    (b : Bool) (k m : ℕ)
    → replay (if b then [] else cancelled k ∷ []) (some (with_mask m)) ≡ some (with_mask m)
cancels true k m = refl
cancels false k m = refl

disables :
    (m : ℕ)
    → replay (if m == 0 then [] else disabled m ∷ []) (some (with_mask m)) ≡ some (with_mask 0)
disables m = elim (Bool-cases (m == 0)) [
  | inl e ↦ rw e (ap (λ n. some (with_mask n)) (ground arith))
  | inr e ↦
      let its_own : (m == m) ≡ true = ground arith in
      rw e (ap (λ (b : Bool). replay [] (if b then some (with_mask 0) else none)) its_own)
]

close_log-gives_back : (o : Opened) → replay (close_log o) (some (all_of o)) ≡ some nothing
unfolding close_log
close_log-gives_back o =
    let cancel = if o.eps.ep_in_mask == 0 then [] else cancelled o.eps.ep_in_mask ∷ [] in
    let disable = if o.enabled_eps == 0 then [] else disabled o.enabled_eps ∷ [] in
    let rest = released ∷ client_closed ∷ [] in
    replay-append cancel (disable ++ rest) (some (all_of o))
    ∙ (ap (replay (disable ++ rest))
          (cancels (o.eps.ep_in_mask == 0) o.eps.ep_in_mask o.enabled_eps)
        ∙ (replay-append disable rest (some (all_of o))
            ∙ ap (replay rest) (disables o.enabled_eps)))

module _ {W : Type 0} (dev : Device W) (m0 : Module) (was_shut : m0.is_open ≡ false) where
  close-IsSettled :
      (log : List Event) (o : Opened) (m : Module) (ax : Ax) (w : W)
      → replay log (some nothing) ≡ some (all_of o)
      → IsSettled m0 (close_adapter dev log o m ax w)
  unfolding close_adapter
  close-IsSettled log o m ax w h = (
    replay-append log (close_log o) (some nothing)
        ∙ (ap (replay (close_log o)) h ∙ close_log-gives_back o),
    sym was_shut,
  )

  start_rx-IsSettled :
      (log : List Event) (o : Opened) (m : Module) (r : Option (Unit {0}) × Ax × W)
      → m.is_open ≡ true
      → o.enabled_eps ≡ o.eps.ep_in_mask + o.eps.ep_out_mask
      → replay log (some nothing) ≡ some (all_of o)
      → IsSettled m0 (start_rx dev log o m r)
  unfolding start_rx
  start_rx-IsSettled log o m (none, ax, w) opened masks h = close-IsSettled log o m ax w h
  start_rx-IsSettled log o m (some u, ax, w) opened masks h =
      (was_shut, h, opened, masks, close_log-gives_back o)

  enable_out-IsSettled :
      (a : Answers) (eps : Endpoints) (m : Module) (ax : Ax) (w : W)
      → m.is_open ≡ true
      → IsSettled m0
          (enable_out dev a (client_opened ∷ acquired ∷ enabled eps.ep_in_mask ∷ []) eps m ax w)
  unfolding enable_out
  enable_out-IsSettled a eps m ax w opened = elim (Bool-cases (is_neg a.enable_out)) [
    | inl e ↦ rw e (
        close-IsSettled _ (record { eps = eps; enabled_eps = eps.ep_in_mask }) m ax w
          (ap (λ n. some (with_mask n)) (omega arith)))
    | inr e ↦ rw e (
        start_rx-IsSettled _ (record { eps = eps; enabled_eps = eps.ep_in_mask + eps.ep_out_mask })
          m (mac_write16 dev reg_rx_ctl rx_ctl_default ax w) opened refl
          (ap (λ n. some (with_mask n)) (omega arith)))
  ]

  enable_in-IsSettled :
      (a : Answers) (eps : Endpoints) (m : Module) (ax : Ax) (w : W)
      → m.is_open ≡ true
      → IsSettled m0 (enable_in dev a (client_opened ∷ acquired ∷ []) eps m ax w)
  unfolding enable_in
  enable_in-IsSettled a eps m ax w opened = elim (Bool-cases (is_neg a.enable_in)) [
    | inl e ↦ rw e (close-IsSettled _ (record { eps = eps; enabled_eps = 0 }) m ax w refl)
    | inr e ↦ rw e (enable_out-IsSettled a eps m ax w opened)
  ]

  after_bring_up-IsSettled :
      (a : Answers) (eps : Endpoints) (m : Module) (r : Option (Unit {0}) × Ax × W)
      → m.is_open ≡ true
      → IsSettled m0 (after_bring_up dev a eps m r)
  unfolding after_bring_up
  after_bring_up-IsSettled a eps m (none, ax, w) opened =
      close-IsSettled _ (record { eps = eps; enabled_eps = 0 }) m ax w refl
  after_bring_up-IsSettled a eps m (some u, ax, w) opened =
      enable_in-IsSettled a eps (record m { generation = (m.generation + 1) % 2 ^ 32 }) ax w opened

  with_client-IsSettled :
      (a : Answers) (ax : Ax) (w : W) (found : Bool × Endpoints)
      → IsSettled m0 (with_client dev a m0 ax w found)
  unfolding with_client
  with_client-IsSettled a ax w (fits, eps) =
      elim (Bool-cases (none_found a.found || (not fits || is_neg a.acquire))) [
        | inl e ↦ rw e (refl, refl)
        | inr e ↦ rw e (
            after_bring_up-IsSettled a eps (record m0 { is_open = true })
              (bring_up dev m0.generation ax w) refl)
      ]

-- `ax88179_open` on any adapter, whatever UHS answers and at whatever point it fails: on an error
-- everything that was taken has been given back, in order, and `g_open` is as it was; a success,
-- possible only while `g_open` is 0, sets it, holds the client, the interface and both bulk
-- endpoints, and `ax88179_close` gives them back: the endpoints, then the interface, then the client.
pub open_adapter-IsSettled :
    {W : Type 0} (dev : Device W) (a : Answers) (m : Module) (ax : Ax) (w : W)
    → IsSettled m (open_adapter dev a m ax w)
unfolding open_adapter
open_adapter-IsSettled dev a m ax w =
    elim (Bool-cases (m.is_open || (not a.allocated || is_neg a.client))) [
      | inl e ↦ rw e (refl, refl)
      | inr e ↦ rw e (
          with_client-IsSettled dev m (ground arith) a ax w (find_endpoints a.profile no_endpoints))
    ]
