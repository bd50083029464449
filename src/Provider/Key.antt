-- ===== src/Provider/Key.antt =====
-- controller/pkg/provider/key.go: the index of pods.
use supernetes.Prelude.{String, Bool, ◌≡◌, ◌↔◌, ◌&&◌, Eq, ◌==◌, string_eq, arith, beq-cases}
use supernetes.Prelude.Texts.{◌++◌}
use supernetes.Kube.{ObjectMeta}

pub record PodKey : Type 0 where
  pub name : String
  pub namespace : String

-- `keyFor`
unfoldable pub key_for : ObjectMeta → PodKey
key_for m = record { name = m.name; namespace = m.namespace }

-- `keyFrom`
unfoldable pub key_from : String → String → PodKey
key_from name namespace = record { name = name; namespace = namespace }

-- `String`
unfoldable pub key_text : PodKey → String
key_text k = k.namespace ++ ("/" ++ k.name)

-- Go compares structs field by field.
abbrev pub key_beq : PodKey → PodKey → Bool
key_beq a b = a.name == b.name && a.namespace == b.namespace

pub key_beq_iff : (a b : PodKey) → (key_beq a b ≡ Bool.true) ↔ (a ≡ b)
key_beq_iff a b = ground (arith, beq-cases a.name b.name, beq-cases a.namespace b.namespace)

instance abbrev pub key_eq : Eq PodKey
key_eq = record { test = key_beq; test_iff = key_beq_iff }
