-- ===== src/Health/Events/Ignored.antt =====
-- Which XIDs checkHealth ignores, seen in what it sends.
use volcano_vgpu_device_plug.Health.Events.Placed.{ArePlacedById}
use volcano_vgpu_device_plug.Prelude.{
  ℕ, ◌≡◌, ◌∙◌, ap, sym, Bool, true, false, not, ◌&&◌, ◌||◌, Option, some, [], ◌∷◌, arith,
  if◌then◌else◌, Bool-cases, inl, inr,
}
use volcano_vgpu_device_plug.GoText.{Str, str_eq_refl}
use volcano_vgpu_device_plug.Rm.Devices.{Device, is_mig_device}
use volcano_vgpu_device_plug.Health.Xids.{is_all_disabled, ignored_xids, disabled_health_check_xids}
use volcano_vgpu_device_plug.Health.Xids.Precedence.{among, listed, ignores-health_check}
use volcano_vgpu_device_plug.Health.Events.{
  Placement, Registration, is_marked, Event, event, Start, check_health,
}
use volcano_vgpu_device_plug.Health.Events.Reports.{check_health-reports}

-- What the two variables say about an XID.
abbrev pub are_ignored_by : Str → Str → ℕ → Bool
are_ignored_by disable_env enable_env xid =
    not (among 0 (listed enable_env))
    && (among 0 (listed disable_env)
        || (not (among xid (listed enable_env))
            && (among xid ignored_xids || among xid (listed disable_env))))

module _ (placement : Device → Option Placement) (register : Device → Registration) where
  ArePlacedById-one : (d : Device) → ArePlacedById placement register (d ∷ [])
  ArePlacedById-one d x y (inl e) (inl f) h = ap placement (e ∙ sym f)
  ArePlacedById-one d x y (inr m) k h = absurd m
  ArePlacedById-one d x y (inl e) (inr m) h = absurd m

  -- A run of checkHealth over one whole GPU that it can register, for which NVML begins, at one XID
  -- event of that GPU: it sends the GPU unless the XID is ignored. No XID is ignored if all are enabled
  -- by the one variable; otherwise each one is if all are disabled by the other variable, also those
  -- that the first one enables by number; otherwise those of the fixed list and those that are
  -- disabled by number are, without those enabled by number.
  pub check_health-ignores :
      (disable_env enable_env : Str) (fail_on_init_error : Bool) (d : Device) (p : Placement)
      (e : Event)
      → is_mig_device d ≡ false
      → placement d ≡ some p
      → is_marked (register d) ≡ false
      → e.is_xid ≡ true
      → e.uuid ≡ some p.uuid
      → (let start : Start = record {
        fail_on_init_error = fail_on_init_error;
        init_succeeds = true;
        event_set_succeeds = true;
      } in
          let xids = disabled_health_check_xids disable_env enable_env in
          check_health placement register xids start (d ∷ []) (event e ∷ [])
          ≡ (false, if are_ignored_by disable_env enable_env e.xid then [] else d ∷ []))
  unfolding check_health
  check_health-ignores disable_env enable_env fail_on_init_error d p e whole placed marked xid
        uuid =
      let xids = disabled_health_check_xids disable_env enable_env in
      elim (Bool-cases (is_all_disabled xids)) [
        | inl h ↦ ground (arith, ignores-health_check disable_env enable_env e.xid)
        | inr h ↦
            check_health-reports placement register xids fail_on_init_error (d ∷ []) (event e ∷ [])
              (ArePlacedById-one d) h
            ∙ ground (arith, ignores-health_check disable_env enable_env e.xid, str_eq_refl p.uuid)
      ]
