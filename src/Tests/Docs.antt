-- ===== src/Tests/Docs.antt =====
-- A store with one text, a document around it, and updates for it.
use crdt_server.Base.{
  List, ℕ, ◌+◌, ◌≤◌, ◌≡◌, refl, [], ◌∷◌, false, none, some, arith, if◌then◌else◌, ◌==◌,
}
use crdt_server.Base.GoMap
use crdt_server.Crdt.{id_at}
use crdt_server.Lib0.Utf16.{split_utf16, split_loop, utf16_length, count_units, units, decode_rune}
use crdt_server.Crdt.Content.{string, content_len, splice}
use crdt_server.Crdt.Content.Splice.{IsCut, splice-IsCut}
use crdt_server.Crdt.DeleteSet.{range, search_first, search_loop}
use crdt_server.Crdt.Struct.{Item, Struct, root, gc, struct_id, struct_len, last_id}
use crdt_server.Crdt.Update.{Update, encode}
use crdt_server.Crdt.Store.{
  Node, node, gc_cell, Store, new_store, put_cells, cells_of, end_of_cells, state, append, get,
  clean_start, clean_end, find_item, find, find_cell, clean_start_at, clean_end_at, split_item,
  left_half, right_half, put_halves, hand_over_key, assign_to, set_left,
}
use crdt_server.Crdt.Store.{Cell, cell_clock}
use crdt_server.Crdt.Store.Gapless.{IsSound, total}
use crdt_server.Crdt.Doc.Sync.{encode_state_as_update, missing_update, structs_of}
use crdt_server.Crdt.Doc.Sent.{HasClock, missing_update-HasClock}
use mathlib.Core.List.{Mem}
use crdt_server.Crdt.StateVector
use crdt_server.Crdt.StateVector.{StateVector}
use crdt_server.Crdt.Store.Links.{append-IsSound}
use crdt_server.Crdt.Store.Find.{covering, found, get-covering}
use crdt_server.Crdt.Store.Clean.{clean_start-IsSound, clean_end-IsSound}
use crdt_server.Crdt.Doc.{Doc, new_doc, with_store}
use crdt_server.Crdt.Doc.Deletes.{delete_range}
use crdt_server.Crdt.Doc.Deleted.{delete_range-IsSound}
use crdt_server.Crdt.Doc.Place.{appended}
use crdt_server.Crdt.Doc.Placed.{appended-Grows}
use crdt_server.Crdt.Doc.Queue.{
  Queues, waiting, turns, drain_all, integrate, count_structs, count_pending, retry_loop,
  apply_decoded_update,
}
use crdt_server.Crdt.Doc.Sound.{IsWellFormed}
use crdt_server.Crdt.Doc.Applied.{new_doc-IsWellFormed, apply_decoded_update-IsWellFormed}
use crdt_server.Crdt.Doc.Progress.{turns-drain_all, retry_loop-count_pending, integrate-IsPresent}

-- "ab" in the root type "t".
abbrev text : Item
text = record {
  id = id_at 1 0;
  origin = none;
  right_origin = none;
  parent = some (root (116 ∷ []));
  has_parent_sub = false;
  parent_sub = [];
  content = string (97 ∷ 98 ∷ []);
  parent_type = some (root (116 ∷ []));
}

abbrev text_node : Node
text_node = record { item = text; left = none; right = none; deleted = false }

abbrev text_store : Store
text_store = appended new_store (node text_node)

text_store-IsSound : IsSound text_store
unfolding content_len struct_id struct_len utf16_length decode_rune
text_store-IsSound =
    (appended-Grows new_store (node text_node) (omega arith) (omega arith)).sound
      (unfold new_doc in (new_doc-IsWellFormed 9).sound)

-- An insertion of client 2 into the text, and a struct whose predecessors are missing.
abbrev insertion : Item
insertion = record text {
  id = id_at 2 0;
  origin = some (id_at 1 0);
  parent = none;
  parent_type = none;
}

abbrev changes : Update
changes = record {
  clients =
      record {
        client = 1;
        start_clock = 0;
        structs = Struct.item (record text { parent_type = none }) ∷ [];
      }
      ∷ record {
        client = 2;
        start_clock = 0;
        structs = Struct.item insertion ∷ gc (id_at 2 7) 3 ∷ [];
      }
      ∷ [];
  deletes = some ((1, range 1 5 ∷ []) ∷ []);
}

apply_decoded_update-IsWellFormed_example :
    IsWellFormed (apply_decoded_update (new_doc 9) changes)
    × ((client : ℕ)
        → state (new_doc 9).store client
          ≤ state (apply_decoded_update (new_doc 9) changes).store client)
unfolding content_len struct_id struct_len utf16_length decode_rune
apply_decoded_update-IsWellFormed_example =
    apply_decoded_update-IsWellFormed (new_doc 9) changes (new_doc-IsWellFormed 9)
      ((omega arith, tt), ((omega arith, (omega arith, tt)), tt))

state_example : state text_store 1 ≡ 2
unfolding appended append state end_of_cells cells_of GoMap.get GoMap.lookup put_cells GoMap.insert
    new_store struct_id struct_len content_len utf16_length decode_rune
state_example = refl

abbrev text_doc : Doc
text_doc = with_store (new_doc 9) text_store

integrate-IsPresent_example :
    integrate text_doc
      (record { client = 1; start_clock = 0; structs = Struct.item text ∷ [] } ∷ [])
    ≡ text_doc
unfolding content_len struct_id struct_len utf16_length decode_rune
integrate-IsPresent_example =
    integrate-IsPresent text_doc _ text_store-IsSound ((omega (arith, state_example), tt), tt)

abbrev waiting_structs : Queues
waiting_structs = (2, Struct.item insertion ∷ gc (id_at 2 7) 3 ∷ []) ∷ []

turns-drain_all_example :
    (turns (3 + 4) text_doc waiting_structs ≡ turns 3 text_doc waiting_structs)
    × (drain_all (turns 3 text_doc waiting_structs).0 (turns 3 text_doc waiting_structs).1
        ≡ turns 3 text_doc waiting_structs)
unfolding waiting
turns-drain_all_example = turns-drain_all 3 4 text_doc waiting_structs (omega arith)

abbrev held_back : Doc
held_back = record text_doc { pending = changes ∷ [] }

retry_loop-count_pending_example : retry_loop (4 + 2) held_back ≡ retry_loop 4 held_back
unfolding count_pending count_structs
retry_loop-count_pending_example = retry_loop-count_pending 4 2 held_back (omega arith)

append-IsSound_example :
    (state text_store 1 ≡ 2)
    × IsSound (put_cells 1 (node text_node ∷ gc_cell (id_at 1 2) 5 ∷ []) text_store)
    × ((k : ℕ)
        → state (put_cells 1 (node text_node ∷ gc_cell (id_at 1 2) 5 ∷ []) text_store) k
          ≡ (if 1 == k then 7 else state text_store k))
unfolding appended append state end_of_cells cells_of GoMap.get GoMap.lookup put_cells GoMap.insert
    new_store struct_id struct_len content_len utf16_length decode_rune
append-IsSound_example =
    append-IsSound text_store (gc_cell (id_at 1 2) 5) _ text_store-IsSound (omega arith)
      (omega arith) refl

get-covering_example : get text_store (id_at 1 1) ≡ found (covering 1 (cells_of text_store 1))
get-covering_example = get-covering text_store (id_at 1 1) text_store-IsSound

-- The text cut between its letters.
abbrev first_letter : Node
unfolding left_half
first_letter = left_half text_node 1 (string (97 ∷ []))

abbrev second_letter : Node
unfolding right_half
second_letter = right_half text_node 1 (string (98 ∷ []))

abbrev cut_store : Store
cut_store = hand_over_key second_letter (
    assign_to none (set_left (some second_letter.item.id))
      (put_cells 1 (put_halves 0 first_letter second_letter (cells_of text_store 1)) text_store))

splice-IsCut_example : IsCut 1 (string (97 ∷ 98 ∷ [])) (string (97 ∷ []), string (98 ∷ []))
unfolding content_len splice split_utf16 split_loop utf16_length count_units units decode_rune
splice-IsCut_example =
    splice-IsCut (string (97 ∷ 98 ∷ [])) 1 (string (97 ∷ []), string (98 ∷ [])) (omega arith)
      (omega arith) (omega arith) refl

delete_range-IsSound_example :
    IsSound (delete_range text_store 1 1 2)
    × ((k : ℕ) → state (delete_range text_store 1 1 2) k ≡ state text_store k)
delete_range-IsSound_example = delete_range-IsSound text_store 1 1 2 text_store-IsSound

clean_start-IsSound_example :
    (second_letter.item.id ≡ id_at 1 1)
    × IsSound cut_store
    × ((k : ℕ) → state cut_store k ≡ state text_store k)
unfolding clean_start find_item find find_cell search_first search_loop clean_start_at split_item
    splice split_utf16 split_loop utf16_length count_units units decode_rune put_halves
    hand_over_key assign_to left_half right_half appended append state end_of_cells cells_of
    GoMap.get GoMap.lookup put_cells GoMap.insert new_store struct_id struct_len content_len
clean_start-IsSound_example =
    clean_start-IsSound text_store (id_at 1 1) second_letter cut_store text_store-IsSound refl

clean_end-IsSound_example :
    (last_id first_letter.item ≡ id_at 1 0)
    × IsSound cut_store
    × ((k : ℕ) → state cut_store k ≡ state text_store k)
unfolding clean_end find_item find find_cell search_first search_loop clean_end_at split_item splice
    split_utf16 split_loop utf16_length count_units units decode_rune put_halves hand_over_key
    assign_to left_half right_half appended append state end_of_cells cells_of GoMap.get
    GoMap.lookup put_cells GoMap.insert new_store struct_id struct_len content_len
clean_end-IsSound_example =
    clean_end-IsSound text_store (id_at 1 0) first_letter cut_store text_store-IsSound refl

-- A peer that has the first clock of client 1.
abbrev one_behind : StateVector
one_behind = (1, 1) ∷ []

missing_update-HasClock_example :
    (encode_state_as_update text_doc one_behind ≡ encode (missing_update text_doc one_behind))
    × (c : Cell) × (rest : List Cell) × Mem
        (record {
          client = 1;
          start_clock = StateVector.get one_behind 1;
          structs = structs_of (c ∷ rest);
        })
        (missing_update text_doc one_behind).clients
    × HasClock (StateVector.get one_behind 1) c
    × (total (cell_clock c) (c ∷ rest) ≡ state text_store 1)
unfolding StateVector.get GoMap.get GoMap.lookup
missing_update-HasClock_example =
    missing_update-HasClock text_doc one_behind 1 text_store-IsSound (omega (arith, state_example))
