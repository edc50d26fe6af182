-- ===== src/Tests/Lister.antt =====
-- pkg/monitor/nvidia/cudevshr.go: a round of Update over the directory of a pod and one of no pod.
use volcano_vgpu_device_plug.Prelude.{ℕ, ◌≡◌, refl, true, false, some, List, [], ◌∷◌, All}
use volcano_vgpu_device_plug.Prelude.Int.{pos, eq_ℤ}
use volcano_vgpu_device_plug.GoText.{Str, codes, str_eq, contains, has_prefix, split}
use volcano_vgpu_device_plug.Kube.Dict.{lookup, insert, remove}
use volcano_vgpu_device_plug.Monitor.Lister.{
  CacheFile, load_cache, open_cache, cache_name, cast_cache, v1, is_valid_pod, Entry,
  ContainerUsage, ContainerLister, add_container, update_entry, update_loop, update,
}
use volcano_vgpu_device_plug.Monitor.Lister.Valid.{Lacks, IsStale, update-Lacks}

abbrev cache_file : CacheFile
cache_file = record {
  size = some 1197904;
  opened = true;
  mapped = some (record { initialized_flag = pos 19920718; major_version = pos 1 });
}

abbrev entry : Str → ℕ → Entry
entry name modified = record {
  name = name;
  is_dir = true;
  modified = some modified;
  cache = load_cache (some (codes "r1.cache" ∷ [])) (λ name. cache_file);
}

abbrev entries : List Entry
entries = entry (codes "u1_c1") 0 ∷ entry (codes "u2_c2") 0 ∷ []

abbrev listed : Str → ContainerUsage
listed uid = record { pod_uid = uid; container_name = codes "c"; info = v1 }

abbrev before : ContainerLister
before = record { containers = (codes "u2_c2", listed (codes "u2")) ∷ []; removed = [] }

abbrev after : ContainerLister
after = record {
  containers =
      (codes "u1_c1", record { pod_uid = codes "u1"; container_name = codes "c1"; info = v1 }) ∷ [];
  removed = codes "u2_c2" ∷ [];
}

updated : update (some (codes "u1" ∷ [])) 1000 (some entries) before ≡ some (true, after)
unfolding update update_loop update_entry add_container is_valid_pod load_cache open_cache
    cache_name cast_cache contains has_prefix split lookup insert remove str_eq eq_ℤ
updated = refl

update-Lacks_example :
    All (λ (e : Entry). IsStale (codes "u1" ∷ []) 1000 e → Lacks after e.name) entries
    × ((name : Str)
        → is_valid_pod name (codes "u1" ∷ []) ≡ false
        → Lacks before name
        → Lacks after name)
update-Lacks_example = update-Lacks (codes "u1" ∷ []) 1000 entries before after updated
