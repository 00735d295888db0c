-- ===== src/Kube/Mounted.antt =====
-- Pods whose containers mount volumes of the pod only.
use qubership_cassandra_oper.Base.{String, List, [], ◌∷◌, ◌++◌, ◌≡◌, ◌⊎◌, inl, inr}
use qubership_cassandra_oper.Base.Lists.{All, All-append}
use qubership_cassandra_oper.Kube.{VolumeMount, Volume, Container, PodSpec}

-- some volume of the list has the name
abbrev pub Holds : String → List Volume → Type 0
Holds s [] = ⊥
Holds s (v ∷ vs) = (s ≡ v.name) ⊎ Holds s vs

-- each mount names a volume of the list
abbrev pub MountsHeld : List Volume → List VolumeMount → Type 0
MountsHeld vs ms = All (λ (m : VolumeMount). Holds m.name vs) ms

abbrev pub IsMounted : PodSpec → Type 0
IsMounted pod =
    MountsHeld pod.volumes pod.container.volume_mounts
    × All (λ (c : Container). MountsHeld pod.volumes c.volume_mounts) pod.sidecars

pub Holds-append : (s : String) (vs ws : List Volume) → Holds s vs → Holds s (vs ++ ws)
Holds-append s [] ws h = elim h [ ]
Holds-append s (v ∷ vs) ws (inl e) = inl e
Holds-append s (v ∷ vs) ws (inr h) = inr (Holds-append s vs ws h)

pub Holds-append_right : (s : String) (vs ws : List Volume) → Holds s ws → Holds s (vs ++ ws)
Holds-append_right s [] ws h = h
Holds-append_right s (v ∷ vs) ws h = inr (Holds-append_right s vs ws h)

pub MountsHeld-append :
    (vs ws : List Volume) (ms : List VolumeMount) → MountsHeld vs ms → MountsHeld (vs ++ ws) ms
MountsHeld-append vs ws [] h = tt
MountsHeld-append vs ws (m ∷ ms) (p, h) =
    (Holds-append m.name vs ws p, MountsHeld-append vs ws ms h)

pub MountsHeld-append_right :
    (vs ws : List Volume) (ms : List VolumeMount) → MountsHeld ws ms → MountsHeld (vs ++ ws) ms
MountsHeld-append_right vs ws [] h = tt
MountsHeld-append_right vs ws (m ∷ ms) (p, h) =
    (Holds-append_right m.name vs ws p, MountsHeld-append_right vs ws ms h)

pub sidecars-append :
    (vs ws : List Volume) (cs : List Container)
    → All (λ (c : Container). MountsHeld vs c.volume_mounts) cs
    → All (λ (c : Container). MountsHeld (vs ++ ws) c.volume_mounts) cs
sidecars-append vs ws [] h = tt
sidecars-append vs ws (c ∷ cs) (p, h) =
    (MountsHeld-append vs ws c.volume_mounts p, sidecars-append vs ws cs h)

-- volumes with their mounts join on both sides
pub MountsHeld-join :
    (vs ws : List Volume) (ms ns : List VolumeMount)
    → MountsHeld vs ms
    → MountsHeld ws ns
    → MountsHeld (vs ++ ws) (ms ++ ns)
MountsHeld-join vs ws ms ns h k =
    All-append (λ (m : VolumeMount). Holds m.name (vs ++ ws)) ms ns (MountsHeld-append vs ws ms h)
      (MountsHeld-append_right vs ws ns k)
