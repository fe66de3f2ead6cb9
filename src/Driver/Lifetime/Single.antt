-- ===== src/Driver/Lifetime/Single.antt =====
-- The flag `g_open` and the adapter that is in use, over any number of opens, closes and abandons.
use ax88179_aroma_driver.Base.{◌≡◌, refl, ◌∙◌, Bool, true, false, Option, none, some, List}
use ax88179_aroma_driver.Driver.Control.{Ax, Device}
use ax88179_aroma_driver.Driver.Lifetime.{
  Module, Event, Answers, Opened, open_adapter, close_adapter, abandon,
}
use ax88179_aroma_driver.Driver.Lifetime.Balanced.{Settled, open_adapter-IsSettled}

-- The adapter in use after an open: the new one, or the one from before.
abbrev pub in_use : Option Opened → Option Opened → Option Opened
in_use before none = before
in_use before (some o) = some o

-- An open at any time, and a close or an abandon of the adapter in use.
pub data Step {W : Type 0} (dev : Device W) (m : Module)
    : Option Opened → Module → Option Opened → Type 0 where
  opens :
      (a : Answers) (ax : Ax) (w : W) (before : Option Opened)
      → Step dev m before
          (open_adapter dev a m ax w).left
          (in_use before (open_adapter dev a m ax w).result)
  closes :
      (log : List Event) (o : Opened) (ax : Ax) (w : W)
      → Step dev m (some o) (close_adapter dev log o m ax w).left none
  abandons : (o : Opened) → Step dev m (some o) (abandon m) none

pub data Reach {W : Type 0} (dev : Device W) (m : Module) (u : Option Opened)
    : Module → Option Opened → Type 0 where
  here : Reach dev m u m u
  next :
      {n l : Module} {v x : Option Opened}
      → Reach dev m u n v
      → Step dev n v l x
      → Reach dev m u l x

abbrev pub is_some : Option Opened → Bool
is_some none = false
is_some (some o) = true

opens-IsSingle :
    (was is : Bool) (before result : Option Opened) (log : List Event)
    → Settled was result log is
    → was ≡ is_some before
    → is ≡ is_some (in_use before result)
opens-IsSingle was is before none log (back, same_flag) h = same_flag ∙ h
opens-IsSingle was is before (some o) log (shut_before, held, set, masks, back) h = set

Step-IsSingle :
    {W : Type 0} (dev : Device W) {m n : Module} {u v : Option Opened}
    → Step dev m u n v
    → m.is_open ≡ is_some u
    → n.is_open ≡ is_some v
unfolding close_adapter
Step-IsSingle dev {m = m} (opens a ax w before) h =
    opens-IsSingle m.is_open _ before _ _ (open_adapter-IsSettled dev a m ax w) h
Step-IsSingle dev (closes log o ax w) h = refl
Step-IsSingle dev (abandons o) h = refl

-- Over any sequence of opens, closes and abandons, successful or not, that starts with `g_open` set
-- exactly while an adapter is in use, it is set exactly while one is.
pub Reach-IsSingle :
    {W : Type 0} (dev : Device W) {m : Module} {u : Option Opened} {n : Module} {v : Option Opened}
    → Reach dev m u n v
    → m.is_open ≡ is_some u
    → n.is_open ≡ is_some v
Reach-IsSingle dev here h = h
Reach-IsSingle dev (next r s) h = Step-IsSingle dev s (Reach-IsSingle dev r h)
