-- ===== src/Kube/Client.antt =====
-- The API server as the plugin meets it: an interface whose calls answer and change a world. `none`
-- and `false` are errors.
use volcano_vgpu_device_plug.Prelude.{Bool, Option, List}
use volcano_vgpu_device_plug.GoText.{Str}
use volcano_vgpu_device_plug.Kube.Dict.{Dict}
use volcano_vgpu_device_plug.Kube.Objects.{Pod, Node}

pub record Client (W : Type 0) : Type 0 where
  pub list_pods : W → Option (List Pod) × W
  pub get_pod : Pod → W → Option Pod × W
  pub patch_pod : Pod → Dict Str → W → Bool × W
  pub get_node : Str → W → Option Node × W
  pub update_node : Node → W → Bool × W
  pub patch_node : Node → Dict Str → W → Bool × W
