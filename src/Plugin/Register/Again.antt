-- ===== src/Plugin/Register/Again.antt =====
-- What the node holds behind a registration, and the next registration.
use mathlib.Core.List.{Perm}
use volcano_vgpu_device_plug.Prelude.{
  ◌≡◌, refl, sym, ap, ◌∙◌, Bool, true, false, Option, none, some, List, [], ◌∷◌, if◌then◌else◌,
  ◌>>=◌, some_eq, arith,
}
use mathlib.Core.Path.{subst}
use volcano_vgpu_device_plug.Prelude.Sorted.{IsKeyed}
use volcano_vgpu_device_plug.GoText.{Str, str_eq, str_eq_iff, str_eq_refl}
use volcano_vgpu_device_plug.Kube.Objects.{Node, node_annotation}
use volcano_vgpu_device_plug.Kube.Client.{Client}
use volcano_vgpu_device_plug.NodeLock.Server.{Holds}
use volcano_vgpu_device_plug.Rm.Devices.{Device}
use volcano_vgpu_device_plug.Util.Types.{DeviceInfo, node_nvidia_device_registered}
use volcano_vgpu_device_plug.Util.Codec.{encode_node_devices}
use volcano_vgpu_device_plug.Plugin.Register.Order.{
  IsSliceSort, convert_device_info-order, convert_device_info-answers,
}
use volcano_vgpu_device_plug.Plugin.Register.{
  Gpu, Registering, convert_device_info, report_devices, report_read, register_in_annotation,
}

-- What the server does: a read returns the node that it holds and changes nothing, and behind an
-- accepted patch the node has the annotations of the patch.
pub record IsPatching {W : Type 0} (api : Client W) (holds : W → Str → Option Node) : Type 0 where
  pub get_name :
      (name : Str) (w w' : W) (n : Node) → api.get_node name w ≡ (some n, w') → n.name ≡ name
  pub get_holds :
      (name : Str) (w w' : W) (n : Node)
      → api.get_node name w ≡ (some n, w')
      → holds w name ≡ some n
  pub get_keeps :
      (name : Str) (w w' : W) (n : Node)
      → api.get_node name w ≡ (some n, w')
      → holds w' name ≡ some n
  pub patch_holds :
      (n : Node) (key value : Str) (w w' : W)
      → api.patch_node n ((key, value) ∷ []) w ≡ (true, w')
      → Holds holds (λ n'. node_annotation key n' ≡ some value) n.name w'

-- The annotation of the node is the text.
abbrev pub IsRegistered : Str → Node → Type 0
IsRegistered encoded n = node_annotation node_nvidia_device_registered n ≡ some encoded

module _ {W : Type 0} (api : Client W) (holds : W → Str → Option Node)
    (server : IsPatching api holds) where
  patched_or_same :
      (node : Node) (encoded existing : Str) (w w' : W) (b : Bool)
      → str_eq existing encoded ≡ b
      → node_annotation node_nvidia_device_registered node ≡ some existing
      → holds w node.name ≡ some node
      → (if b
          then (true, w)
          else api.patch_node node ((node_nvidia_device_registered, encoded) ∷ []) w)
        ≡ (true, w')
      → Holds holds (IsRegistered encoded) node.name w'
  patched_or_same node encoded existing w w' true e k h p =
      let text : existing ≡ encoded = (str_eq_iff existing encoded).0 e in
      subst (Holds holds (IsRegistered encoded) node.name) (ap (λ (x : Bool × W). x.1) p)
        (node, h, k ∙ ap some text)
  patched_or_same node encoded existing w w' false e k h p =
      server.patch_holds node node_nvidia_device_registered encoded w w' p

  reported_case :
      (node : Node) (encoded : Str) (w w' : W) (o : Option Str)
      → node_annotation node_nvidia_device_registered node ≡ o
      → holds w node.name ≡ some node
      → (elim o [
        | some existing ↦
            if str_eq existing encoded
            then (true, w)
            else api.patch_node node ((node_nvidia_device_registered, encoded) ∷ []) w
        | none ↦ api.patch_node node ((node_nvidia_device_registered, encoded) ∷ []) w
      ])
        ≡ (true, w')
      → Holds holds (IsRegistered encoded) node.name w'
  reported_case node encoded w w' none e h k =
      server.patch_holds node node_nvidia_device_registered encoded w w' k
  reported_case node encoded w w' (some existing) e h k =
      patched_or_same node encoded existing w w' (str_eq existing encoded) refl e h k

  report_read-Holds :
      (sort : List DeviceInfo → List DeviceInfo) (config : Registering) (driver : Str → Option Gpu)
      (name encoded : Str) (w w₁ w' : W) (o : Option Node)
      → api.get_node name w ≡ (o, w₁)
      → report_read sort config driver api o encoded w₁ ≡ (true, w')
      → Holds holds (IsRegistered encoded) name w'
  unfolding report_devices
  report_read-Holds sort config driver name encoded w w₁ w' none e h = ground arith
  report_read-Holds sort config driver name encoded w w₁ w' (some node) e h =
      let named = server.get_name name w w₁ node e in
      subst (λ x. Holds holds (IsRegistered encoded) x w') named
        (reported_case node encoded w₁ w' _ refl
          (subst (λ x. holds w₁ x ≡ some node) (sym named) (server.get_keeps name w w₁ node e)) h)

  -- Registering a text that the node holds sends nothing.
  report_read-same :
      (sort : List DeviceInfo → List DeviceInfo) (config : Registering) (driver : Str → Option Gpu)
      (name encoded : Str) (w w' : W) (n : Node)
      → Holds holds (IsRegistered encoded) name w
      → api.get_node name w ≡ (some n, w')
      → report_read sort config driver api (some n) encoded w' ≡ (true, w')
  unfolding report_devices
  report_read-same sort config driver name encoded w w' n (n₀, h, k) e =
      let held = server.get_holds name w w' n e in
      let same : node_annotation node_nvidia_device_registered n ≡ some encoded =
        subst (IsRegistered encoded) (some_eq (sym h ∙ held)) k in
      ap
        (λ o. elim o [
          | some existing ↦
              if str_eq existing encoded
              then (true, w')
              else api.patch_node n ((node_nvidia_device_registered, encoded) ∷ []) w'
          | none ↦ api.patch_node n ((node_nvidia_device_registered, encoded) ∷ []) w'
        ])
        same
      ∙ ap
          (λ b.
            if b
            then (true, w')
            else api.patch_node n ((node_nvidia_device_registered, encoded) ∷ []) w')
          (str_eq_refl encoded)

-- When RegisterInAnnotation returns without an error, the annotation of the node that the server holds
-- is the text of the devices; and at the next call, for the same devices in any order, with other
-- minor numbers for each two of them, and a node that the server returns, there is no error and no
-- patch: all that it does is to read the node.
pub register_in_annotation-again :
    {W : Type 0} (api : Client W) (holds : W → Str → Option Node) (server : IsPatching api holds)
    (sort : List DeviceInfo → List DeviceInfo) (slice_sort : IsSliceSort sort)
    (config : Registering) (driver : Str → Option Gpu) (devs devs' : List Device)
    (r : List DeviceInfo) (w w' w'' : W) (n : Node)
    → Perm devs devs'
    → convert_device_info sort config driver devs ≡ some r
    → IsKeyed (λ (d : DeviceInfo). d.minor) r
    → register_in_annotation sort config driver api devs w ≡ some (true, w')
    → api.get_node config.node_name w' ≡ (some n, w'')
    → Holds holds (IsRegistered (encode_node_devices r)) config.node_name w'
      × (register_in_annotation sort config driver api devs' w' ≡ some (true, w''))
unfolding register_in_annotation
register_in_annotation-again {W = W} api holds server sort slice_sort config driver devs devs' r w
      w' w'' n p hr keyed h e =
    let (r', hr') = convert_device_info-answers sort config driver devs devs' r p hr in
    let same =
      convert_device_info-order sort slice_sort config driver devs devs' r r' p hr hr' keyed in
    let first : report_read sort config driver api (api.get_node config.node_name w).0
          (encode_node_devices r) (api.get_node config.node_name w).1
        ≡ (true, w') =
      some_eq (
        sym (
          ap
            (λ o. o >>= λ devices. some (
              report_read sort config driver api (api.get_node config.node_name w).0
                (encode_node_devices devices) (api.get_node config.node_name w).1))
            hr)
        ∙ h) in
    let held =
      report_read-Holds api holds server sort config driver config.node_name (encode_node_devices r)
        w _ w' _ refl first in
    let again =
      report_read-same api holds server sort config driver config.node_name (encode_node_devices r)
        w' w'' n held e in
    (
      held,
      ap
            (λ o. o >>= λ devices. some (
              report_read sort config driver api (api.get_node config.node_name w').0
                (encode_node_devices devices) (api.get_node config.node_name w').1))
            (hr' ∙ ap some (sym same))
          ∙ ap
              (λ (x : Option Node × W).
                some (report_read sort config driver api x.0 (encode_node_devices r) x.1))
              e
          ∙ ap some again,
    )
