-- ===== src/Health/Xids.antt =====
-- The XIDs that health checks ignore. A map from XIDs to flags is an association list; XID 0 stands
-- for all of them.
pub mod Precedence
use volcano_vgpu_device_plug.Prelude.{
  ℕ, Bool, true, false, not, ◌||◌, Option, none, some, List, [], ◌∷◌, map, ◌==◌, if◌then◌else◌,
}
use volcano_vgpu_device_plug.GoText.{Str, codes, str_eq, split, trim_space, to_lower}
use volcano_vgpu_device_plug.GoNum.{parse_uint, max_uint64}

abbrev pub DisabledXids : Type 0
DisabledXids = List (ℕ × Bool)

unfoldable pub flag : ℕ → DisabledXids → Option Bool
flag xid [] = none
flag xid ((x, b) ∷ h) = if x == xid then some b else flag xid h

unfoldable pub set_flag : ℕ → Bool → DisabledXids → DisabledXids
set_flag xid b [] = (xid, b) ∷ []
set_flag xid b ((x, c) ∷ h) = if x == xid then (xid, b) ∷ h else (x, c) ∷ set_flag xid b h

abbrev pub all_xids : ℕ
all_xids = 0

unfoldable pub is_all_disabled : DisabledXids → Bool
unfolding flag
is_all_disabled h = elim (flag all_xids h) [ none ↦ false | some all_disabled ↦ all_disabled ]

-- Behind the test for enabled=all.
abbrev pub flag_or : Option Bool → Bool → Bool
flag_or none b = b
flag_or (some disabled) b = disabled

unfoldable pub is_disabled : DisabledXids → ℕ → Bool
unfolding is_all_disabled
is_disabled h xid = elim (flag all_xids h) [
  | some false ↦ false
  | _ ↦ flag_or (flag xid h) (is_all_disabled h)
]

-- The loop of newHealthCheckXIDs, with the map built so far.
unfoldable pub new_loop : DisabledXids → List Str → DisabledXids
unfolding set_flag
new_loop output [] = output
new_loop output (xid ∷ xids) =
    let trimmed = trim_space xid in
    let (id, failed) = parse_uint max_uint64 trimmed in
    let skip = new_loop output xids in
    let add = new_loop (set_flag id true output) xids in
    if str_eq trimmed (codes "all") || str_eq trimmed (codes "xids")
    then (all_xids, true) ∷ []
    else if str_eq trimmed []
    then skip
    else if failed
    then skip
    else add

unfoldable pub new_health_check_xids : List Str → DisabledXids
unfolding new_loop
new_health_check_xids xids = new_loop [] xids

abbrev pub ignored_xids : List ℕ
ignored_xids = 13 ∷ 31 ∷ 43 ∷ 45 ∷ 68 ∷ 109 ∷ []

-- for _, x := range xs { m[x] = b }
unfoldable pub set_all : Bool → List ℕ → DisabledXids → DisabledXids
unfolding set_flag
set_all b [] h = h
set_all b (x ∷ xs) h = set_all b xs (set_flag x b h)

abbrev pub keys : DisabledXids → List ℕ
keys h = map (λ (e : ℕ × Bool). e.0) h

-- The combination of the three sources in getDisabledHealthCheckXids.
unfoldable pub combine : DisabledXids → DisabledXids → DisabledXids
unfolding set_all
combine disabled enabled = set_all false (keys enabled) (set_all true ignored_xids disabled)

-- getDisabledHealthCheckXids, from the values of the two environment variables.
unfoldable pub disabled_health_check_xids : Str → Str → DisabledXids
unfolding new_health_check_xids combine
disabled_health_check_xids disable_env enable_env =
    combine (new_health_check_xids (split 44 (to_lower disable_env)))
      (new_health_check_xids (split 44 (to_lower enable_env)))
