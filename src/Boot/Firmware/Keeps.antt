-- ===== src/Boot/Firmware/Keeps.antt =====
-- Code that keeps a property of the history, and what it is made of.
use odp_platform_common.Common.{Bool, true, false, if◌then◌else◌, ◌∷◌, ◌≡◌}
use odp_platform_common.Common.Result.{Result, ok, err}
use odp_platform_common.Common.Action.{continue_with}
use odp_platform_common.Boot.Firmware.{EfiError, Call, load, start, watchdog, History, Boot}

-- A call that loads no image, starts none, and leaves the watchdog timer alone.
abbrev pub is_silent : {DevicePath : Type 0} → Call DevicePath → Bool
is_silent (load parent path) = false
is_silent (start image) = false
is_silent (watchdog seconds) = false
is_silent _ = true

module _ {DevicePath : Type 0} (P : History DevicePath → Type 0) where
  abbrev pub Keeps : {A : Type 0} → Boot DevicePath A → Type 0
  Keeps m = (h : History DevicePath) → P h → P (m h).0

  -- A property that no silent call can end.
  abbrev pub Stays : Type 0
  Stays = (c : Call DevicePath) (h : History DevicePath) → is_silent c ≡ true → P h → P (c ∷ h)

module _ {DevicePath : Type 0} (P : History DevicePath → Type 0) {A B : Type 0} where
  pub Keeps-bind :
      (r : History DevicePath × Result A EfiError) (f : A → Boot DevicePath B)
      → P r.0
      → ((a : A) → Keeps P (f a))
      → P (continue_with r f).0
  Keeps-bind (h, ok a) f p k = k a h p
  Keeps-bind (h, err e) f p k = p

module _ {DevicePath : Type 0} (P : History DevicePath → Type 0) {A : Type 0} where
  pub Keeps-if :
      (b : Bool) (m n : Boot DevicePath A) → Keeps P m → Keeps P n → Keeps P (if b then m else n)
  Keeps-if true m n k l = k
  Keeps-if false m n k l = l
