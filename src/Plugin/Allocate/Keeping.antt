-- ===== src/Plugin/Allocate/Keeping.antt =====
-- What the actions of Allocate leave alone before the error of getAllocateResponse.
use volcano_vgpu_device_plug.Prelude.{
  ◌≢◌, refl, Bool, true, false, Option, none, some, List, if◌then◌else◌,
}
use volcano_vgpu_device_plug.Kube.Client.{Client}
use volcano_vgpu_device_plug.Plugin.Mig.{MigConfigSpec}
use volcano_vgpu_device_plug.Plugin.Action.{
  AllocateError, multiple_requests, no_pending_pod, too_large, unknown_device, mig_response_failed,
  no_request, number_mismatch, response_failed, erase_failed, Result, ok, failed, crashed, State,
  Action, or_crash, continue, ◌>>=◌,
}
use volcano_vgpu_device_plug.Plugin.Prepare.{Host}

-- What the calls before the response leave alone: they read pods, or reach the machine.
pub record IsQuiet {W : Type 0} (api : Client W) (host : Host W) (P : W → Type 0) : Type 0 where
  pub list_pods : (w : W) → P w → P (api.list_pods w).1
  pub apply_mig : (current : List MigConfigSpec) (w : W) → P w → P (host.apply_mig current w).1
  pub create_spec : (w : W) → P w → P (host.create_spec w).1
  pub sleep : (w : W) → P w → P (host.sleep w).1
  pub new_uuid : (w : W) → P w → P (host.new_uuid w).1

module _ {W : Type 0} (P : W → Type 0) where
  abbrev pub Answered : AllocateError → W → Type 0
  Answered response_failed w = P w
  Answered _ w = Unit

  abbrev pub KeepsResult : {A : Type 0} → Result A × State W → Type 0
  KeepsResult (ok a, s) = P s.world
  KeepsResult (crashed, s) = Unit
  KeepsResult (failed e, s) = Answered e s.world

  -- What holds of the world before the action holds behind a value, and behind that error.
  abbrev pub IsKeeping : {A : Type 0} → Action W A → Type 0
  IsKeeping m = (s : State W) → P s.world → KeepsResult (m s)

  abbrev pub LeavesResult : {A : Type 0} → Result A × State W → Type 0
  LeavesResult (ok a, s) = Unit
  LeavesResult (crashed, s) = Unit
  LeavesResult (failed e, s) = Answered e s.world

  -- The same behind that error only.
  abbrev pub IsLeaving : {A : Type 0} → Action W A → Type 0
  IsLeaving m = (s : State W) → P s.world → LeavesResult (m s)

  -- Never that error.
  abbrev pub OtherResult : {A : Type 0} → Result A × State W → Type 0
  OtherResult (ok a, s) = Unit
  OtherResult (crashed, s) = Unit
  OtherResult (failed e, s) = e ≢ response_failed

  abbrev pub IsOther : {A : Type 0} → Action W A → Type 0
  IsOther m = (s : State W) → OtherResult (m s)

  Answered-other : (e : AllocateError) (w : W) → e ≢ response_failed → Answered e w
  Answered-other response_failed w h = absurd (h refl)
  Answered-other multiple_requests w h = tt
  Answered-other no_pending_pod w h = tt
  Answered-other too_large w h = tt
  Answered-other unknown_device w h = tt
  Answered-other mig_response_failed w h = tt
  Answered-other no_request w h = tt
  Answered-other number_mismatch w h = tt
  Answered-other erase_failed w h = tt

  other_leaves : {A : Type 0} (r : Result A × State W) → OtherResult r → LeavesResult r
  other_leaves (ok a, s) k = tt
  other_leaves (crashed, s) k = tt
  other_leaves (failed e, s) k = Answered-other e s.world k

  pub IsOther-IsLeaving : {A : Type 0} (m : Action W A) → IsOther m → IsLeaving m
  IsOther-IsLeaving m h s p = other_leaves (m s) (h s)

  pub IsLeaving-bind :
      {A B : Type 0} (m : Action W A) (f : A → Action W B)
      → IsKeeping m
      → ((a : A) → IsLeaving (f a))
      → IsLeaving (m >>= f)
  IsLeaving-bind {A = A} {B = B} m f h k s p = left (m s) (h s p)
    where
      left : (r : Result A × State W) → KeepsResult r → LeavesResult (continue r.0 r.1 f)
      left (ok a, s) q = k a s q
      left (crashed, s) q = tt
      left (failed e, s) q = q

  pub IsKeeping-bind :
      {A B : Type 0} (m : Action W A) (f : A → Action W B)
      → IsKeeping m
      → ((a : A) → IsKeeping (f a))
      → IsKeeping (m >>= f)
  IsKeeping-bind {A = A} {B = B} m f h k s p = kept (m s) (h s p)
    where
      kept : (r : Result A × State W) → KeepsResult r → KeepsResult (continue r.0 r.1 f)
      kept (ok a, s) q = k a s q
      kept (crashed, s) q = tt
      kept (failed e, s) q = q

  pub IsOther-bind :
      {A B : Type 0} (m : Action W A) (f : A → Action W B)
      → IsOther m
      → ((a : A) → IsOther (f a))
      → IsOther (m >>= f)
  IsOther-bind {A = A} {B = B} m f h k s = left (m s) (h s)
    where
      left : (r : Result A × State W) → OtherResult r → OtherResult (continue r.0 r.1 f)
      left (ok a, s) q = k a s
      left (crashed, s) q = tt
      left (failed e, s) q = q

  pub IsLeaving-then-IsOther :
      {A B : Type 0} (m : Action W A) (f : A → Action W B)
      → IsLeaving m
      → ((a : A) → IsOther (f a))
      → IsLeaving (m >>= f)
  IsLeaving-then-IsOther {A = A} {B = B} m f h k s p = left (m s) (h s p)
    where
      left : (r : Result A × State W) → LeavesResult r → LeavesResult (continue r.0 r.1 f)
      left (ok a, s) q = other_leaves (f a s) (k a s)
      left (crashed, s) q = tt
      left (failed e, s) q = q

  module _ {A : Type 0} where
    pub or_crash-IsKeeping : (o : Option A) → IsKeeping (or_crash o)
    or_crash-IsKeeping none = λ s p. tt
    or_crash-IsKeeping (some a) = λ s p. p

    pub if-IsKeeping :
        (b : Bool) (m n : Action W A) → IsKeeping m → IsKeeping n → IsKeeping (if b then m else n)
    if-IsKeeping true m n hm hn = hm
    if-IsKeeping false m n hm hn = hn

    pub if-IsLeaving :
        (b : Bool) (m n : Action W A) → IsLeaving m → IsLeaving n → IsLeaving (if b then m else n)
    if-IsLeaving true m n hm hn = hm
    if-IsLeaving false m n hm hn = hn

    pub if-IsOther :
        (b : Bool) (m n : Action W A) → IsOther m → IsOther n → IsOther (if b then m else n)
    if-IsOther true m n hm hn = hm
    if-IsOther false m n hm hn = hn
