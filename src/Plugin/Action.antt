-- ===== src/Plugin/Action.antt =====
-- A call of the plugin as an action: it reads and writes the MIG configuration that the plugin keeps
-- and the world outside, and returns a value, returns an error, or ends the process by a panic or
-- klog.Fatal.
use volcano_vgpu_device_plug.Prelude.{Option, none, some, List}
use volcano_vgpu_device_plug.Plugin.Mig.{MigConfigSpec}

-- The errors of Allocate, by the place of their return.
pub data AllocateError : Type 0 where
  multiple_requests no_pending_pod too_large unknown_device mig_response_failed : AllocateError
  no_request number_mismatch response_failed erase_failed : AllocateError

pub data Result (A : Type 0) : Type 0 where
  ok : A → Result A
  failed : AllocateError → Result A
  crashed : Result A

-- `current` is plugin.migCurrent.MigConfigs["current"].
pub record State (W : Type 0) : Type 0 where
  pub current : List MigConfigSpec
  pub world : W

abbrev pub Action : Type 0 → Type 0 → Type 0
Action W A = State W → Result A × State W

module _ {W A : Type 0} where
  abbrev pub pure : A → Action W A
  pure a s = (ok a, s)

  abbrev pub raise : AllocateError → Action W A
  raise e s = (failed e, s)

  abbrev pub crash : Action W A
  crash s = (crashed, s)

  -- A call that changes the world only.
  abbrev pub on_world : (W → A × W) → Action W A
  on_world f s = let (a, w) = f s.world in (ok a, record s { world = w })

  abbrev pub or_crash : Option A → Action W A
  or_crash none = crash
  or_crash (some a) = pure a

-- Only the outcome of the first action decides what is left to do.
abbrev pub continue : {W A B : Type 0} → Result A → State W → (A → Action W B) → Result B × State W
continue (ok a) s f = f a s
continue (failed e) s f = (failed e, s)
continue crashed s f = (crashed, s)

infixl 5 ◌>>=◌ ◌>>◌
abbrev pub ◌>>=◌ : {W A B : Type 0} → Action W A → (A → Action W B) → Action W B
◌>>=◌ m f s = let (r, s') = m s in continue r s' f

abbrev pub ◌>>◌ : {W A B : Type 0} → Action W A → Action W B → Action W B
m >> k = m >>= λ _. k
