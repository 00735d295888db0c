-- ===== src/Kube/Files.antt =====
-- The files that a container sees of the items of config maps and secrets.
use qubership_cassandra_oper.Base.{String, List, [], ◌∷◌, ◌++◌, ◌≡◌, ◌⊎◌, inr}
use qubership_cassandra_oper.Kube.{
  VolumeMount, KeyToPath, VolumeProjection, config_map_items, secret_items, projected, Volume,
  PodSpec,
}

-- some item has the path
abbrev pub HasItem : String → List KeyToPath → Type 0
HasItem file [] = ⊥
HasItem file (i ∷ is) = (i.path ≡ file) ⊎ HasItem file is

-- an item of some projection does
abbrev pub Projects : String → List VolumeProjection → Type 0
Projects file [] = ⊥
Projects file (config_map_items name is ∷ ps) = HasItem file is ⊎ Projects file ps
Projects file (secret_items name is ∷ ps) = HasItem file is ⊎ Projects file ps

-- a projected volume of the name shows the file
abbrev pub Shows : String → String → List Volume → Type 0
Shows name file [] = ⊥
Shows name file (v ∷ vs) =
    ((v.name ≡ name) × (ps : List VolumeProjection) × (v.source ≡ projected ps) × Projects file ps)
    ⊎ Shows name file vs

-- the volume is mounted at the folder
abbrev pub MountedAt : String → String → List VolumeMount → Type 0
MountedAt name folder [] = ⊥
MountedAt name folder (m ∷ ms) =
    ((m.name ≡ name) × (m.mount_path ≡ folder)) ⊎ MountedAt name folder ms

-- the first container sees the file in the folder
abbrev pub Sees : String → String → PodSpec → Type 0
Sees folder file pod =
    (name : String) × MountedAt name folder pod.container.volume_mounts
    × Shows name file pod.volumes

pub Projects-append_right :
    (file : String) (ps qs : List VolumeProjection) → Projects file qs → Projects file (ps ++ qs)
Projects-append_right file [] qs h = h
Projects-append_right file (config_map_items n is ∷ ps) qs h =
    inr (Projects-append_right file ps qs h)
Projects-append_right file (secret_items n is ∷ ps) qs h = inr (Projects-append_right file ps qs h)

pub Shows-append_right :
    (name file : String) (vs ws : List Volume) → Shows name file ws → Shows name file (vs ++ ws)
Shows-append_right name file [] ws h = h
Shows-append_right name file (v ∷ vs) ws h = inr (Shows-append_right name file vs ws h)

pub MountedAt-append_right :
    (name folder : String) (ms ns : List VolumeMount)
    → MountedAt name folder ns
    → MountedAt name folder (ms ++ ns)
MountedAt-append_right name folder [] ns h = h
MountedAt-append_right name folder (m ∷ ms) ns h = inr (MountedAt-append_right name folder ms ns h)
