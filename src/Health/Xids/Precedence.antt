-- ===== src/Health/Xids/Precedence.antt =====
-- Which source decides about an XID.
use volcano_vgpu_device_plug.Prelude.{
  ℕ, ◌≡◌, refl, Bool, true, false, not, ◌&&◌, ◌||◌, none, some, List, [], ◌∷◌, arith, ◌==◌,
  if◌then◌else◌, any, All,
}
use volcano_vgpu_device_plug.GoText.{Str, codes, str_eq, split, to_lower, trim_space}
use volcano_vgpu_device_plug.GoNum.{parse_uint, max_uint64}
use volcano_vgpu_device_plug.Health.Xids.{
  DisabledXids, flag, set_flag, all_xids, is_all_disabled, is_disabled, new_loop,
  new_health_check_xids, ignored_xids, set_all, keys, combine, disabled_health_check_xids,
}

-- The XID is among the numbers.
abbrev pub among : ℕ → List ℕ → Bool
among xid xs = any (λ x. x == xid) xs

flag-set_flag :
    (x y : ℕ) (b : Bool) (h : DisabledXids)
    → flag y (set_flag x b h) ≡ (if x == y then some b else flag y h)
unfolding flag set_flag
flag-set_flag x y b [] = refl
flag-set_flag x y b ((z, c) ∷ h) = ground (arith, flag-set_flag x y b h)

flag-set_all :
    (b : Bool) (xs : List ℕ) (h : DisabledXids) (y : ℕ)
    → flag y (set_all b xs h) ≡ (if among y xs then some b else flag y h)
unfolding set_all
flag-set_all b [] h y = refl
flag-set_all b (x ∷ xs) h y =
    ground (arith, flag-set_all b xs (set_flag x b h) y, flag-set_flag x y b h)

-- A map whose flags are all true, as newHealthCheckXIDs builds it.
abbrev pub AllTrue : DisabledXids → Type 0
AllTrue h = All (λ (e : ℕ × Bool). e.1 ≡ true) h

AllTrue-set_flag : (x : ℕ) (h : DisabledXids) → AllTrue h → AllTrue (set_flag x true h)
unfolding set_flag
AllTrue-set_flag x [] a = (refl, tt)
AllTrue-set_flag x ((y, b) ∷ h) (p, a) = ground (arith, AllTrue-set_flag x h a)

AllTrue-if : (b : Bool) (g h : DisabledXids) → AllTrue g → AllTrue h → AllTrue (if b then g else h)
AllTrue-if true g h a c = a
AllTrue-if false g h a c = c

new_loop-AllTrue :
    (xids : List Str) (output : DisabledXids) → AllTrue output → AllTrue (new_loop output xids)
unfolding new_loop
new_loop-AllTrue [] output a = a
new_loop-AllTrue (x ∷ xids) output a =
    let trimmed = trim_space x in
    let skip = new_loop output xids in
    let add = new_loop (set_flag (parse_uint max_uint64 trimmed).0 true output) xids in
    let failed = (parse_uint max_uint64 trimmed).1 in
    let kept = new_loop-AllTrue xids output a in
    let added =
      new_loop-AllTrue xids (set_flag (parse_uint max_uint64 trimmed).0 true output)
        (AllTrue-set_flag (parse_uint max_uint64 trimmed).0 output a) in
    AllTrue-if (str_eq trimmed (codes "all") || str_eq trimmed (codes "xids"))
      ((all_xids, true) ∷ []) (if str_eq trimmed [] then skip else if failed then skip else add)
      (refl, tt)
      (AllTrue-if (str_eq trimmed []) skip (if failed then skip else add) kept
        (AllTrue-if failed skip add kept added))

flag-AllTrue :
    (y : ℕ) (h : DisabledXids)
    → AllTrue h
    → flag y h ≡ (if among y (keys h) then some true else none)
unfolding flag
flag-AllTrue y [] a = refl
flag-AllTrue y ((x, b) ∷ h) (p, a) = ground (arith, flag-AllTrue y h a)

-- The XIDs that the text of an environment variable lists; `all` and `xids` list XID 0.
abbrev pub listed : Str → List ℕ
listed env = keys (new_health_check_xids (split 44 (to_lower env)))

-- checkHealth ignores an XID, since it ends at once or since it skips the events of that XID.
abbrev pub ignores : DisabledXids → ℕ → Bool
ignores xids xid = is_all_disabled xids || is_disabled xids xid

ignores-combine :
    (disabled enabled : DisabledXids) (xid : ℕ)
    → AllTrue disabled
    → ignores (combine disabled enabled) xid ≡ (
        not (among 0 (keys enabled))
        && (among 0 (keys disabled)
            || (not (among xid (keys enabled))
                && (among xid ignored_xids || among xid (keys disabled)))))
unfolding is_disabled is_all_disabled combine
ignores-combine disabled enabled xid a = ground (
  arith,
  flag-set_all false (keys enabled) (set_all true ignored_xids disabled) xid,
  flag-set_all false (keys enabled) (set_all true ignored_xids disabled) all_xids,
  flag-set_all true ignored_xids disabled xid,
  flag-set_all true ignored_xids disabled all_xids,
  flag-AllTrue xid disabled a,
  flag-AllTrue all_xids disabled a,
)

-- Which XIDs checkHealth ignores, by its early return or event by event: none if all are enabled by
-- the one variable; otherwise each one if all are disabled by the other variable, also those that the
-- first one enables by number; otherwise those of the fixed list and those that are disabled by
-- number, without those enabled by number.
pub ignores-health_check :
    (disable_env enable_env : Str) (xid : ℕ)
    → ignores (disabled_health_check_xids disable_env enable_env) xid ≡ (
        not (among 0 (listed enable_env))
        && (among 0 (listed disable_env)
            || (not (among xid (listed enable_env))
                && (among xid ignored_xids || among xid (listed disable_env)))))
unfolding disabled_health_check_xids
ignores-health_check disable_env enable_env xid =
    ignores-combine (new_health_check_xids (split 44 (to_lower disable_env)))
      (new_health_check_xids (split 44 (to_lower enable_env))) xid
      (unfold new_health_check_xids in new_loop-AllTrue (split 44 (to_lower disable_env)) [] tt)
