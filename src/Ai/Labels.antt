-- ===== src/Ai/Labels.antt =====
-- backend/app/ai/action_boundary.py: `_bounded_labels`. A dictionary is the list of its items.
use Prim.Native.String.{String}
use cloud_ward.Prelude.{ℕ, zero, suc, List, [], ◌∷◌, leb, str_eq, length, if◌then◌else◌}

-- `text[:n]`
unfoldable pub take_text : ℕ → String → String
take_text zero text = ""
take_text (suc n) String.[] = ""
take_text (suc n) (String.◌∷◌ c text) = String.◌∷◌ c (take_text n text)

-- `labels[key] = item`
unfoldable pub put_label : String → String → List (String × String) → List (String × String)
put_label key item [] = (key, item) ∷ []
put_label key item ((k, v) ∷ rest) =
    let after = put_label key item rest in if str_eq key k then (k, item) ∷ rest else (k, v) ∷ after

-- The loop over the items that are left, with the labels so far.
unfoldable pub add_labels : List (String × String) → List (String × String) → List (String × String)
add_labels [] labels = labels
add_labels ((key, item) ∷ rest) labels =
    let skipped = add_labels rest labels in
    let added = add_labels rest (put_label (take_text 253 key) (take_text 253 item) labels) in
    if leb 30 (length labels) then labels else if str_eq key "" then skipped else added

-- `_bounded_labels`
unfoldable pub bounded_labels : List (String × String) → List (String × String)
bounded_labels items = add_labels items []
