-- ===== src/Plugin/Allocate/Envs.antt =====
-- The variables of a container that shares GPUs.
use volcano_vgpu_device_plug.Prelude.{
  ℕ, zero, suc, ◌+◌, ◌≤◌, ◌≡◌, ◌≢◌, refl, ap, ◌∙◌, Bool, true, false, some, [], ◌∷◌, ◌++◌,
  if◌then◌else◌, get_elem?, arith,
}
use volcano_vgpu_device_plug.Prelude.Int.{pos, to_int32, mul_ℤ}
use volcano_vgpu_device_plug.GoText.{Str, codes, str_eq, str_eq_iff, str_eq_refl}
use volcano_vgpu_device_plug.GoNum.{itoa, format_uint}
use volcano_vgpu_device_plug.GoNum.Decimal.{parse_uint-format_uint}
use volcano_vgpu_device_plug.Kube.Dict.{lookup, lookup-insert}
use volcano_vgpu_device_plug.Util.Types.{ContainerDevice, ContainerDevices}
use volcano_vgpu_device_plug.Plugin.Response.{Response, set_env, set_env_if}
use volcano_vgpu_device_plug.Plugin.Allocate.{
  Setting, limit_key, limit_value, cache_file, set_limits, vgpu_envs,
}

++-injective : (p a b : Str) → p ++ a ≡ p ++ b → a ≡ b
++-injective [] a b h = h
++-injective (c ∷ p) a b h = ++-injective p a b cc

format_uint-injective : (i j : ℕ) → format_uint i ≡ format_uint j → i ≡ j
format_uint-injective i j h =
    ground (arith, parse_uint-format_uint (i + j) i, parse_uint-format_uint (i + j) j)

limit_key-differs : (i j : ℕ) → i ≢ j → str_eq (limit_key i) (limit_key j) ≡ false
unfolding limit_key
limit_key-differs i j h =
    let same = λ (k : limit_key i ≡ limit_key j).
      format_uint-injective i j
        (++-injective (codes "CUDA_DEVICE_MEMORY_LIMIT_") (format_uint i) (format_uint j) k) in
    ground (arith, str_eq_iff (limit_key i) (limit_key j))

-- A key that is not the limit of a device from `k` on keeps its value.
set_limits-keeps :
    (factor k : ℕ) (devreq : ContainerDevices) (r : Response) (key : Str)
    → ((j : ℕ) → k ≤ j → str_eq (limit_key j) key ≡ false)
    → lookup key (set_limits factor k devreq r).envs ≡ lookup key r.envs
unfolding set_limits
set_limits-keeps factor k [] r key h = refl
set_limits-keeps factor k (dev ∷ devreq) r key h =
    let head = h k (omega arith) in
    let rest =
      set_limits-keeps factor (suc k) devreq (set_env (limit_key k) (limit_value factor dev) r) key
        (λ j l. h j (omega arith)) in
    let first = lookup-insert (limit_key k) key (limit_value factor dev) r.envs in
    rest ∙ first ∙ ap (λ b. if b then some (limit_value factor dev) else lookup key r.envs) head

-- The limit of each device is in the environment.
pub set_limits-limit :
    (factor k : ℕ) (devreq : ContainerDevices) (r : Response) (i : ℕ) (dev : ContainerDevice)
    → get_elem? devreq i ≡ some dev
    → lookup (limit_key (k + i)) (set_limits factor k devreq r).envs ≡ some (limit_value factor dev)
unfolding set_limits
set_limits-limit factor k [] r i dev h = ground arith
set_limits-limit factor k (val ∷ devreq) r zero dev h =
    let kept =
      set_limits-keeps factor (suc k) devreq (set_env (limit_key k) (limit_value factor val) r)
        (limit_key k) (λ j l. limit_key-differs j k (ground arith)) in
    let first = lookup-insert (limit_key k) (limit_key k) (limit_value factor val) r.envs in
    ground (arith, str_eq_refl (limit_key k))
set_limits-limit factor k (val ∷ devreq) r (suc i) dev h =
    let rest =
      set_limits-limit factor (suc k) devreq (set_env (limit_key k) (limit_value factor val) r) i
        dev h in
    ground arith

set_env-keeps :
    (key value : Str) (r : Response) (i : ℕ)
    → str_eq key (limit_key i) ≡ false
    → lookup (limit_key i) (set_env key value r).envs ≡ lookup (limit_key i) r.envs
set_env-keeps key value r i h =
    lookup-insert key (limit_key i) value r.envs
    ∙ ap (λ b. if b then some value else lookup (limit_key i) r.envs) h

set_env_if-keeps :
    (b : Bool) (key value : Str) (r : Response) (i : ℕ)
    → str_eq key (limit_key i) ≡ false
    → lookup (limit_key i) (set_env_if b key value r).envs ≡ lookup (limit_key i) r.envs
set_env_if-keeps true key value r i h = set_env-keeps key value r i h
set_env_if-keeps false key value r i h = refl

-- The other variables of a share leave the limits alone.
pub vgpu_envs-keeps :
    (c : Setting) (dev : ContainerDevice) (id : Str) (r : Response) (i : ℕ)
    → lookup (limit_key i) (vgpu_envs c dev id r).envs ≡ lookup (limit_key i) r.envs
unfolding vgpu_envs limit_key str_eq
vgpu_envs-keeps c dev id r i =
    let r₁ = set_env (codes "CUDA_DEVICE_SM_LIMIT") (itoa dev.usedcores) r in
    let r₂ = set_env (codes "CUDA_DEVICE_MEMORY_SHARED_CACHE") (cache_file id) r₁ in
    let r₃ = set_env_if c.cores_oversubscribed (codes "CUDA_OVERSUBSCRIBE") (codes "true") r₂ in
    set_env_if-keeps c.disable_core_limit _ _ r₃ i refl
    ∙ set_env_if-keeps c.cores_oversubscribed _ _ r₂ i refl
    ∙ set_env-keeps _ _ r₁ i refl
    ∙ set_env-keeps _ _ r i refl

-- The limit of each device: the int32 product of its memory and the factor, in MiB.
abbrev pub HasLimits : Setting → ContainerDevices → Response → Type 0
HasLimits c devreq r =
    (i : ℕ) (dev : ContainerDevice)
    → get_elem? devreq i ≡ some dev
    → lookup (codes "CUDA_DEVICE_MEMORY_LIMIT_" ++ format_uint i) r.envs
      ≡ some (itoa (to_int32 (mul_ℤ dev.usedmem (to_int32 (pos c.gpu_memory_factor)))) ++ codes "m")
