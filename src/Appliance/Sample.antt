-- ===== src/Appliance/Sample.antt =====
-- A concrete appliance for the tests: it holds the writes, the latest first, and answers every request.
use lan_mi_home.Base.{not, none, some, List, [], ◌∷◌, ◌≡◌, refl, ap, map, if◌then◌else◌}
use lan_mi_home.Base.Bytes.{same}
use lan_mi_home.Base.Text.{Text, Table, word, find}
use lan_mi_home.Sp651e.{ok}
use lan_mi_home.Appliance.Values.{
  Json, null, boolean, integer, pos, text, array, object, Items, nil, cons, Fields, end, field,
  entries, truth,
}
use lan_mi_home.Appliance.Miot.{Ident, Device, dicts, miot_items, item_ok}
use lan_mi_home.Appliance.Miot.Many.{Answers}
use lan_mi_home.Appliance.Fields.Written.{same_ident}

abbrev pub SampleStore : Type 0
SampleStore = List (Ident × Json)

unfoldable pub held : SampleStore → Ident → Json
held [] ident = null
held ((written, v) ∷ store) ident = if same_ident ident written then v else held store ident

abbrev item : Text → Json → Fields
item key v =
    field (word "did") (text key none none)
      (field (word "code") (integer (pos 0)) (field (word "value") v end))

unfoldable replies : SampleStore → List (Text × Ident) → Items
unfolding held
replies store [] = nil
replies store ((key, ident) ∷ requests) =
    cons (object (item key (held store ident))) (replies store requests)

-- The action 2/1 turns the power over.
unfoldable pub toggle : SampleStore → SampleStore
unfolding held truth
toggle store = ((2, 1), boolean (not (truth (held store (2, 1))))) ∷ store

unfoldable pub sample : Device SampleStore
unfolding held replies toggle
sample = record {
  open_device = λ store. (store, ok tt);
  get_property_by =
      λ ident store. (store, ok (array (cons (object (item [] (held store ident))) nil)));
  get_properties = λ requests store. (store, ok (array (replies store requests)));
  set_property_by = λ ident v store. ((ident, v) ∷ store, ok (array nil));
  call_action_by = λ ident params store. (toggle store, ok (array nil));
  sleep = λ milliseconds store. store;
}

reply : SampleStore → Text × Ident → Table Json
unfolding entries held
reply store (key, ident) = entries (item key (held store ident))

replies-map :
    (store : SampleStore) (requests : List (Text × Ident))
    → dicts (replies store requests) ≡ map (reply store) requests
unfolding dicts replies reply
replies-map store [] = refl
replies-map store ((key, ident) ∷ requests) =
    ap (λ rest. entries (item key (held store ident)) ∷ rest) (replies-map store requests)

pub sample-Answers : (store : SampleStore) → Answers sample store (λ ident. some (held store ident))
unfolding sample miot_items reply entries item_ok find same
sample-Answers store = (
  reply store,
  λ key ident. ((none, none, refl), refl),
  λ requests few. (array (replies store requests), refl, replies-map store requests),
)
