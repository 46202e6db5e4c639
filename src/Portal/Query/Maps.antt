-- ===== src/Portal/Query/Maps.antt =====
-- `get`, `set` and `delete` of a `Map`.
use nowhere_dash.Base.{
  false, [], ◌∷◌, none, some, Text, text_eq, text_eq_iff, text_eq_refl, ◌≡◌, refl, arith,
}
use nowhere_dash.Portal.Query.{Entries, get, set, delete}

pub get-set_other : (j k v : Text) (m : Entries) → text_eq k j ≡ false → get j (set k v m) ≡ get j m
unfolding get set
get-set_other j k v [] h = rw h
get-set_other j k v ((k', v') ∷ m) h =
    ground (arith, get-set_other j k v m h, text_eq_iff k' k, text_eq_iff k' j, text_eq_iff k j)

pub get-set_same : (k v : Text) (m : Entries) → get k (set k v m) ≡ some v
unfolding get set
get-set_same k v [] = rw text_eq_refl
get-set_same k v ((k', v') ∷ m) = ground (arith, get-set_same k v m, text_eq_iff k' k)

pub get-delete_other :
    (j k : Text) (m : Entries) → text_eq k j ≡ false → get j (delete k m) ≡ get j m
unfolding get delete
get-delete_other j k [] h = refl
get-delete_other j k ((k', v') ∷ m) h =
    ground (arith, get-delete_other j k m h, text_eq_iff k' k, text_eq_iff k' j, text_eq_iff k j)

pub get-delete_same : (k : Text) (m : Entries) → get k (delete k m) ≡ none
unfolding get delete
get-delete_same k [] = refl
get-delete_same k ((k', v') ∷ m) = ground (arith, get-delete_same k m, text_eq_iff k' k)
