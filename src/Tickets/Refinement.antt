-- ===== src/Tickets/Refinement.antt =====
-- The server as a table of tickets: what each message does to a function from keys to tickets, and
-- which replies it allows.
use datum_connect.Base.{
  ℕ, zero, suc, ◌≤◌, ◌≡◌, refl, sym, ap, ◌∙◌, ◌&&◌, Option, none, some, List, [], ◌∷◌, arith,
  if◌then◌else◌, ◌==◌, option_eq, nat_eq, text_eq, length, keep, skip, take, All,
}
use datum_connect.Text.{Text, is_some}
use datum_connect.Base.Slices.{length-take}
use datum_connect.Tickets.{
  TicketData, Tickets, has_key, get, N0desMessage, auth, put_metrics, ping, ticket_publish,
  ticket_unpublish, ticket_get, ticket_list, Reply, done, pong, existed, ticket, tickets, page,
  serve, server_actor,
}
use datum_connect.Tickets.Laws.{
  IsSorted, insert-IsSorted, remove-IsSorted, get-insert, get-remove, get-entries,
}

abbrev pub Table : Type 0
Table = Text → Text → Option TicketData

abbrev pub empty_table : Table
empty_table kind name = none

abbrev pub next_table : N0desMessage → Table → Table
next_table (ticket_publish e) t = λ k n. if has_key k n e then some e else t k n
next_table (ticket_unpublish i m) t = λ k n. if k == i && n == m then none else t k n
next_table _ t = t

-- The tickets of a list are those of the table under their keys, and of the kind asked for.
abbrev pub IsListed : Text → Table → List TicketData → Type 0
IsListed kind t = All (λ e. (t e.ticket_kind e.name ≡ some e) × (e.ticket_kind ≡ kind))

abbrev pub Answers : Table → N0desMessage → Reply → Type 0
Answers t auth r = r ≡ done
Answers t put_metrics r = r ≡ done
Answers t (ping req_id) r = r ≡ pong req_id
Answers t (ticket_publish e) r = r ≡ done
Answers t (ticket_unpublish k n) r = r ≡ existed (is_some (t k n))
Answers t (ticket_get k n) r = r ≡ ticket (t k n)
Answers t (ticket_list kind offset limit) r =
    (l : List TicketData) × (r ≡ tickets l) × IsListed kind t l × (length l ≤ limit)

-- Each message is answered from the table that the messages before it left.
abbrev pub AnswersAll : Table → List N0desMessage → List Reply → Type 0
AnswersAll t [] [] = Unit
AnswersAll t (m ∷ ms) (r ∷ rs) = Answers t m r × AnswersAll (next_table m t) ms rs
AnswersAll t [] (r ∷ rs) = ⊥
AnswersAll t (m ∷ ms) [] = ⊥

-- The list in the server is ordered and holds the table.
abbrev Represents : Tickets → Table → Type 0
Represents xs t = IsSorted xs × ((k n : Text) → get k n xs ≡ t k n)

All-take {κ} :
    (P : TicketData → Type κ) (n : ℕ) (xs : List TicketData) → All P xs → All P (take n xs)
All-take P zero xs h = tt
All-take P (suc n) [] h = tt
All-take P (suc n) (x ∷ xs) (h, hs) = (h, All-take P n xs hs)

All-skip {κ} :
    (P : TicketData → Type κ) (n : ℕ) (xs : List TicketData) → All P xs → All P (skip n xs)
All-skip P zero xs h = h
All-skip P (suc n) [] h = tt
All-skip P (suc n) (x ∷ xs) (h, hs) = All-skip P n xs hs

keep-IsListed :
    (kind : Text) (t : Table) (xs : List TicketData)
    → All (λ e. t e.ticket_kind e.name ≡ some e) xs
    → IsListed kind t (keep (λ e. e.ticket_kind == kind) xs)
keep-IsListed kind t [] h = tt
keep-IsListed kind t (x ∷ xs) (h, hs) = ground (arith, keep-IsListed kind t xs hs)

table-entries :
    (t : Table) (xs ys : Tickets)
    → ((k n : Text) → get k n xs ≡ t k n)
    → All (λ e. get e.ticket_kind e.name xs ≡ some e) ys
    → All (λ e. t e.ticket_kind e.name ≡ some e) ys
table-entries t xs [] r h = tt
table-entries t xs (y ∷ ys) r (h, hs) =
    (sym (r y.ticket_kind y.name) ∙ h, table-entries t xs ys r hs)

serve-Represents :
    (m : N0desMessage) (xs : Tickets) (t : Table)
    → Represents xs t
    → Represents (serve m xs).0 (next_table m t)
unfolding serve
serve-Represents auth xs t h = h
serve-Represents put_metrics xs t h = h
serve-Represents (ping i) xs t h = h
serve-Represents (ticket_get k n) xs t h = h
serve-Represents (ticket_list k o l) xs t h = h
serve-Represents (ticket_publish e) xs t (s, h) =
    (insert-IsSorted e xs s, λ k n. ground (arith, get-insert e k n xs, h k n))
serve-Represents (ticket_unpublish i m) xs t (s, h) =
    (remove-IsSorted i m xs s, λ k n. ground (arith, get-remove i m k n xs s, h k n))

serve-Answers :
    (m : N0desMessage) (xs : Tickets) (t : Table) → Represents xs t → Answers t m (serve m xs).1
unfolding serve page
serve-Answers auth xs t h = refl
serve-Answers put_metrics xs t h = refl
serve-Answers (ping i) xs t h = refl
serve-Answers (ticket_publish e) xs t h = refl
serve-Answers (ticket_get k n) xs t (s, h) = ap ticket (h k n)
serve-Answers (ticket_unpublish k n) xs t (s, h) = ap (λ o. existed (is_some o)) (h k n)
serve-Answers (ticket_list kind offset limit) xs t (s, h) = (
  page kind offset limit xs,
  refl,
  All-take _ limit _
      (All-skip _ offset _ (keep-IsListed kind t xs (table-entries t xs xs h (get-entries xs s)))),
  length-take limit _,
)

run-refines :
    (ms : List N0desMessage) (xs : Tickets) (t : Table)
    → Represents xs t
    → AnswersAll t ms (server_actor ms xs).1
unfolding server_actor
run-refines [] xs t h = tt
run-refines (m ∷ ms) xs t h = (
  serve-Answers m xs t h,
  run-refines ms (serve m xs).0 (next_table m t) (serve-Represents m xs t h),
)

-- From an empty server, every message is answered from the table that the messages before it define:
-- the last ticket published under a key and not taken back since. A list holds tickets of the table of
-- the kind asked for, at most as many as the limit.
pub server_actor-refines :
    (ms : List N0desMessage) → AnswersAll empty_table ms (server_actor ms []).1
unfolding get
server_actor-refines ms = run-refines ms [] empty_table (tt, λ k n. refl)
