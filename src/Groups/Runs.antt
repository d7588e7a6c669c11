-- ===== src/Groups/Runs.antt =====
-- Runs of the operations on groups.
use rauthy.Base.{ℕ, ◌≡◌, inl, inr, Option, none, some, List, [], ◌∷◌, Str, Bool-cases, is_empty}
use rauthy.Named.{NamedStore, State, find_all, push_names}
use rauthy.Named.Listing.{IsListed, find_all-listed, find_all-IsListed}
use rauthy.Groups.{create, delete, update, sanitize}
use rauthy.Groups.Laws.{create-IsListed, delete-IsListed, update-IsListed}

-- The operations on groups, as they come from the handlers.
pub data Op : Type 0 where
  creating updating : Str → Str → Op
  deleting : Str → Op
  listing : Op
  sanitizing : Option (List Str) → Op

unfoldable pub step : ℕ → Op → State → State
unfolding create update delete find_all sanitize
step now (creating id name) st = record st { named = (create id name st.named).1 }
step now (updating id name) st = (update id name now st).1
step now (deleting id) st = (delete id now st).1
step now listing st = record st { named = (find_all st.named).1 }
step now (sanitizing asked) st = record st { named = (sanitize asked st.named).1 }

-- A run, each operation with its time.
unfoldable pub run : List (ℕ × Op) → State → State
unfolding step
run [] st = st
run ((now, op) ∷ ops) st = run ops (step now op st)

sanitize-IsListed :
    (asked : Option (List Str)) (st : NamedStore) → IsListed st → IsListed (sanitize asked st).1
unfolding sanitize
sanitize-IsListed none st l = l
sanitize-IsListed (some asked) st l =
    elim (Bool-cases (is_empty (push_names asked (find_all st).0))) [
      | inl bare ↦ rw (bare, sanitize) (find_all-IsListed st l)
      | inr full ↦ rw (full, sanitize) (find_all-IsListed st l)
    ]

step-IsListed :
    (now : ℕ) (op : Op) (st : State) → IsListed st.named → IsListed (step now op st).named
unfolding step
step-IsListed now (creating id name) st l = create-IsListed id name st.named l
step-IsListed now (updating id name) st l = update-IsListed id name now st l
step-IsListed now (deleting id) st l = delete-IsListed id now st l
step-IsListed now listing st l = find_all-IsListed st.named l
step-IsListed now (sanitizing asked) st l = sanitize-IsListed asked st.named l

-- After any run of creations, renamings, deletions, listings and sanitizing calls, from a state whose
-- cached list is the table or is not there, the list of all groups is the table of groups.
pub run-lists :
    (ops : List (ℕ × Op)) (st : State)
    → IsListed st.named
    → (find_all (run ops st).named).0 ≡ (run ops st).named.db
unfolding run
run-lists [] st l = (find_all-listed st.named l).0
run-lists ((now, op) ∷ ops) st l = run-lists ops (step now op st) (step-IsListed now op st l)
