-- ===== src/Tests/Patterns.antt =====
-- api/config/v1/resources.go and pkg/util/util.go: patterns of resources, CDI specifications.
use volcano_vgpu_device_plug.Prelude.{◌≡◌, ◌↔◌, refl, true, false, All, [], ◌∷◌}
use volcano_vgpu_device_plug.GoText.{codes, split}
use volcano_vgpu_device_plug.GoText.Regexp.{
  is_meta, quote_meta, compile, match_tokens, match_string,
}
use volcano_vgpu_device_plug.Spec.Resources.{wild_rest, wild_literals, wild_card_to_regexp, matches}
use volcano_vgpu_device_plug.Spec.Resources.Patterns.{MatchesParts, matches_iff}
use volcano_vgpu_device_plug.Util.CdiSpec.{CdiSpec, IsUsable, check_cdi_spec, check_cdi_spec_iff}

tesla : matches (codes "Tesla*T4") (codes "NVIDIA Tesla T4") ≡ true
unfolding matches wild_card_to_regexp wild_literals wild_rest split quote_meta is_meta match_string
    compile match_tokens
tesla = refl

-- the dot of a literal is quoted
dotted_literal : matches (codes "A.B*") (codes "AxBC") ≡ false
unfolding matches wild_card_to_regexp wild_literals wild_rest split quote_meta is_meta match_string
    compile match_tokens
dotted_literal = refl

matches_iff_example :
    (matches (codes "Tesla*T4") (codes "NVIDIA Tesla T4") ≡ true)
    ↔ MatchesParts (split 42 (codes "Tesla*T4")) (codes "NVIDIA Tesla T4")
matches_iff_example = matches_iff (codes "Tesla*T4") (codes "NVIDIA Tesla T4")

abbrev spec : CdiSpec
spec = record {
  kind = codes "k";
  devices =
      record { name = codes "MIG-1"; device_nodes = codes "/dev/nvidia-caps/nvidia-cap1" ∷ [] }
      ∷ [];
}

accepted_spec :
    (check_cdi_spec spec (codes "k") ≡ true) ↔ ((spec.kind ≡ codes "k") × All IsUsable spec.devices)
accepted_spec = check_cdi_spec_iff spec (codes "k")
