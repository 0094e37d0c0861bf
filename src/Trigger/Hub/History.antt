-- ===== src/Trigger/Hub/History.antt =====
-- core/src/trigger.rs: the hub keeps the newest hundred triggers.
use core_tempo.Common.{
  ℕ, zero, suc, ◌-◌, ◌+◌, ◌≤◌, String, ◌≡◌, refl, List, [], ◌∷◌, ◌++◌, map, Option, none, some,
  arith, inl, inr, ◌==◌, string_eq, Bool-cases, length, length-append, length-drop, drop, drop-drop,
  drop-append_le, ap, ◌∙◌, sym,
}
use mathlib.Core.List.{append-nil, append_assoc}
use core_tempo.Common.Dict.{lookup}
use core_tempo.Trigger.Hub.{
  TriggerStatus, TriggerHub, begin_at, try_begin, push_record, get, set_found, set_status,
  update_record, begin, finish, register, settled, dropped, end_task, Call, registers, tries,
  begins, sets, finishes, ends, call, run, new, history_cap,
}

abbrev pub ids : List (String × TriggerStatus) → List String
ids = map (λ r. r.0)

-- The ids of a history that were registered, oldest first; a refused trigger gets none.
abbrev begun_at : String → Option String → List String
begun_at id (some active) = []
begun_at id none = id ∷ []

abbrev pub drawn_by : Call → TriggerHub → List String
drawn_by (registers id status) hub = id ∷ []
drawn_by (tries flow id) hub = begun_at id (lookup flow hub.in_flight)
drawn_by (begins flow id) hub = []
drawn_by (sets id status) hub = []
drawn_by (finishes id status) hub = []
drawn_by (ends id how) hub = []

pub drawn : List Call → TriggerHub → List String
drawn [] hub = []
drawn (c ∷ cs) hub = drawn_by c hub ++ drawn cs (call c hub)

-- The newest `history_cap` of a list.
abbrev pub newest : List String → List String
newest all = drop (length all - history_cap) all

newest-push :
    (all : List String) (id : String)
    → drop (length (newest all) + 1 - history_cap) (newest all ++ id ∷ []) ≡ newest (all ++ id ∷ [])
newest-push all id =
    let k : ℕ = length all - history_cap in
    let m : ℕ = length (newest all) + 1 - history_cap in
    let few : k ≤ length all = omega arith in
    let total : k + m ≡ length (all ++ id ∷ []) - history_cap =
      omega (arith, length-drop k all, length-append {0} all (id ∷ [])) in
    ap (drop m) (sym (drop-append_le k all (id ∷ []) few))
    ∙ drop-drop m k (all ++ id ∷ [])
    ∙ ap (λ n. drop n (all ++ id ∷ [])) total

ids-append : (xs ys : List (String × TriggerStatus)) → ids (xs ++ ys) ≡ ids xs ++ ids ys
ids-append [] ys = refl
ids-append (x ∷ xs) ys = ap (λ t. x.0 ∷ t) (ids-append xs ys)

ids-drop : (n : ℕ) (xs : List (String × TriggerStatus)) → ids (drop n xs) ≡ drop n (ids xs)
ids-drop zero xs = refl
ids-drop (suc n) [] = refl
ids-drop (suc n) (x ∷ xs) = ids-drop n xs

length-ids : (xs : List (String × TriggerStatus)) → length (ids xs) ≡ length xs
length-ids [] = refl
length-ids (x ∷ xs) = ap suc (length-ids xs)

ids-update_record :
    (id : String) (status : TriggerStatus) (records : List (String × TriggerStatus))
    → ids (update_record id status records) ≡ ids records
unfolding update_record
ids-update_record id status [] = refl
ids-update_record id status ((known, old) ∷ records) = elim (Bool-cases (known == id)) [
  | inl same ↦ rw same
  | inr other ↦ rw other (ap (λ t. known ∷ t) (ids-update_record id status records))
]

set_found-ids :
    (id : String) (status : TriggerStatus) (hub : TriggerHub) (found : Option TriggerStatus)
    → ids (set_found id status hub found).records ≡ ids hub.records
set_found-ids id status hub none = refl
set_found-ids id status hub (some old) = ids-update_record id status hub.records

set_status-ids :
    (id : String) (status : TriggerStatus) (hub : TriggerHub)
    → ids (set_status id status hub).records ≡ ids hub.records
unfolding set_status
set_status-ids id status hub = set_found-ids id status hub (get id hub.records)

module _ (all : List String) where
  abbrev IsNewest : List (String × TriggerStatus) → List String → Type 0
  IsNewest records more = ids records ≡ newest (all ++ more)

  push_record-newest :
      (id : String) (status : TriggerStatus) (hub : TriggerHub)
      → ids hub.records ≡ newest all
      → IsNewest (push_record id status hub).records (id ∷ [])
  unfolding push_record
  push_record-newest id status hub h =
      let pushed = hub.records ++ (id, status) ∷ [] in
      let count : length pushed - history_cap ≡ length (newest all) + 1 - history_cap = omega (
        arith,
        length-append {0} hub.records ((id, status) ∷ []),
        length-ids hub.records,
        ap length h,
      ) in
      ids-drop (length pushed - history_cap) pushed
      ∙ ap (λ n. drop n (ids pushed)) count
      ∙ ap (drop (length (newest all) + 1 - history_cap))
          (ids-append hub.records ((id, status) ∷ []) ∙ ap (λ t. t ++ id ∷ []) h)
      ∙ newest-push all id

  same-newest :
      (records : List (String × TriggerStatus)) → ids records ≡ newest all → IsNewest records []
  same-newest records h = rw (append-nil all) h

  begin_at-newest :
      (flow id : String) (hub : TriggerHub) (found : Option String)
      → ids hub.records ≡ newest all
      → IsNewest (begin_at flow id hub found).0.records (begun_at id found)
  begin_at-newest flow id hub (some active) h = same-newest hub.records h
  begin_at-newest flow id hub none h = push_record-newest id TriggerStatus.running hub h

  call-newest :
      (c : Call) (hub : TriggerHub)
      → ids hub.records ≡ newest all
      → IsNewest (call c hub).records (drawn_by c hub)
  unfolding call register try_begin begin finish end_task
  call-newest (registers id status) hub h = push_record-newest id status hub h
  call-newest (tries flow id) hub h = begin_at-newest flow id hub (lookup flow hub.in_flight) h
  call-newest (begins flow id) hub h = same-newest _ (set_status-ids id TriggerStatus.running _ ∙ h)
  call-newest (sets id status) hub h = same-newest _ (set_status-ids id status hub ∙ h)
  call-newest (finishes id status) hub h = same-newest _ (set_status-ids id status _ ∙ h)
  call-newest (ends id (settled status)) hub h = same-newest _ (set_status-ids id status _ ∙ h)
  call-newest (ends id dropped) hub h = same-newest _ (set_status-ids id _ _ ∙ h)

run-newest :
    (cs : List Call) (all : List String) (hub : TriggerHub)
    → ids hub.records ≡ newest all
    → ids (run cs hub).records ≡ newest (all ++ drawn cs hub)
unfolding run drawn
run-newest [] all hub h = rw (append-nil all) h
run-newest (c ∷ cs) all hub h =
    run-newest cs (all ++ drawn_by c hub) (call c hub) (call-newest all c hub h)
    ∙ ap newest (append_assoc all (drawn_by c hub) (drawn cs (call c hub)))

-- After any calls of a new hub, its records are the newest hundred of the triggers that were
-- registered or begun, oldest first.
pub records_newest : (cs : List Call) → ids (run cs new).records ≡ newest (drawn cs new)
records_newest cs = run-newest cs [] new refl
