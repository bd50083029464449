-- ===== src/Controller/Inventory/Difference.antt =====
-- Diff of inventory.go: what the garbage collection of the workload reconciler is given.
use supernetes.Prelude.{List, [], ◌∷◌, ◌≡◌, ◌↔◌, ◌⊎◌, refl, ap, some, map, All}
use supernetes.Controller.Inventory.{
  ObjMetadata, Change, Stale, Inventory, Objects, change_ref, add_change_set, list_metadata,
  stale_of, diff,
}

abbrev pub IsIn : {A : Type 0} → A → List A → Type 0
IsIn a [] = ⊥
IsIn a (x ∷ xs) = (a ≡ x) ⊎ IsIn a xs

-- `ParseObjMetadata` reads back what `ObjMetadata.String` writes for these changes.
abbrev pub IsParsed : Objects → List Change → Type 0
IsParsed o = All (λ c. o.parse (o.text c.metadata) ≡ some c.metadata)

-- `ObjMetadataSet.Diff` is the difference of sets.
abbrev pub IsDiffing : Objects → Type 0
IsDiffing o =
    (m : ObjMetadata) (a b : List ObjMetadata) → IsIn m (o.diff a b) ↔ (IsIn m a × ¬ IsIn m b)

-- the object that a deletion names
abbrev pub stale_key : Stale → ObjMetadata
stale_key s = record {
  namespace = s.namespace;
  name = s.name;
  group = s.gvk.group;
  kind = s.gvk.kind;
}

list_metadata-changes :
    (o : Objects) (changes : List Change)
    → IsParsed o changes
    → list_metadata o (map (change_ref o) changes) ≡ some (map (λ c. c.metadata) changes)
unfolding list_metadata change_ref
list_metadata-changes o [] h = refl
list_metadata-changes o (c ∷ changes) h = rw (h.0, list_metadata-changes o changes h.1) refl

map-stale_of :
    (o : Objects) (entries : Inventory) (ms : List ObjMetadata)
    → map stale_key (map (stale_of o entries) ms) ≡ ms
unfolding stale_of
map-stale_of o entries [] = refl
map-stale_of o entries (m ∷ ms) = ap (λ xs. m ∷ xs) (map-stale_of o entries ms)

-- Diff of two inventories that were filled from change sets succeeds, and names exactly the
-- objects that were applied for the old one and not for the new one. It relies on the object
-- package: the texts of this metadata can be parsed back, and its Diff is the difference of sets.
pub diff-IsIn :
    (o : Objects) (old new : List Change)
    → IsParsed o old
    → IsParsed o new
    → IsDiffing o
    → (stale : List Stale) × (diff o
          (add_change_set o [] (some old))
          (add_change_set o [] (some new))
        ≡ some stale)
      × ((m : ObjMetadata)
          → IsIn m (map stale_key stale)
            ↔ (IsIn m (map (λ c. c.metadata) old) × ¬ IsIn m (map (λ c. c.metadata) new)))
unfolding diff add_change_set
diff-IsIn o old new old_parsed new_parsed diffing = (
  map (stale_of o (map (change_ref o) old)) missing,
  rw (list_metadata-changes o old old_parsed, list_metadata-changes o new new_parsed, diff) refl,
  λ m.
      rw (map-stale_of o (map (change_ref o) old) missing)
        (diffing m (map (λ c. c.metadata) old) (map (λ c. c.metadata) new)),
)
  where
    missing : List ObjMetadata
    missing = o.diff (map (λ c. c.metadata) old) (map (λ c. c.metadata) new)
