-- ===== src/Kube/Objects.antt =====
-- Pods and nodes, with the fields that the plugin uses. Reading a nil map of annotations is reading
-- an empty one; writing to it is a panic, so a node keeps the difference.
use volcano_vgpu_device_plug.Prelude.{Option, none, some, List, []}
use volcano_vgpu_device_plug.GoText.{Str}
use volcano_vgpu_device_plug.Kube.Dict.{Dict, lookup}

pub record Container : Type 0 where
  pub name : Str
  pub env : List Str

pub record Pod : Type 0 where
  pub name : Str
  pub uid : Str
  pub annotations : Dict Str
  pub containers : List Container

-- pod.Annotations[key], the empty text if there is none
unfoldable pub annotation : Str → Pod → Str
annotation key p = elim (lookup key p.annotations) [ none ↦ [] | some v ↦ v ]

pub record Node : Type 0 where
  pub name : Str
  pub annotations : Option (Dict Str)

unfoldable pub node_annotation : Str → Node → Option Str
node_annotation key n = elim (n.annotations) [ none ↦ none | some m ↦ lookup key m ]
