-- ===== src/Tickets.antt =====
-- n0des-local/src/lib.rs: the server of tickets. Its map is a list of entries in the order of their
-- keys, as `BTreeMap` iterates over them; a key is the ticket's kind and its name. Replies are sent to
-- the caller of a message, who may be gone.
pub mod Order
pub mod Laws
pub mod Refinement
pub mod Paging
mod Tests
use datum_connect.Base.{
  ℕ, zero, suc, ◌+◌, ◌-◌, ◌*◌, ◌/◌, ◌%◌, ◌^◌, ◌≤◌, ◌<◌, min, max, String, ◌≡◌, refl, sym, ap, subst,
  ◌∙◌, ◌≢◌, ◌↔◌, ◌⊎◌, inl, inr, Bool, true, false, not, ◌&&◌, ◌||◌, Option, none, some, List, [],
  ◌∷◌, ◌++◌, map, arith, if◌then◌else◌, Eq, ◌==◌, ==_refl, eq_of_==, option_eq, nat_eq, text_eq,
  Bool-cases, ltb, leb, u16_max, u32_max, u64_mod, ltb→lt, lt→ltb, leb→le, le→leb, tests, length,
  any, all, find, keep, skip, take, filter_map, All, Option-cases, length-append, find-test,
  find-eq-none, Result, ok, err, ◌>>=◌, ◌>>◌, context, std_context, to_option, is_ok, Result-cases,
}
use datum_connect.Text.{Text, is_some}
use datum_connect.Tickets.Order.{lt_text}

-- `TicketData`
pub record TicketData : Type 0 where
  pub ticket_kind : Text
  pub name : Text
  pub ticket_bytes : List ℕ

abbrev pub Tickets : Type 0
Tickets = List TicketData

-- The order of keys, of pairs
abbrev pub key_lt : Text → Text → TicketData → Bool
key_lt kind name e = lt_text kind e.ticket_kind || (kind == e.ticket_kind && lt_text name e.name)

abbrev pub has_key : Text → Text → TicketData → Bool
has_key kind name e = kind == e.ticket_kind && name == e.name

-- `BTreeMap::insert`
unfoldable pub insert : TicketData → Tickets → Tickets
insert e [] = e ∷ []
insert e (x ∷ xs) =
    let rest = insert e xs in
    if has_key e.ticket_kind e.name x
    then e ∷ xs
    else if key_lt e.ticket_kind e.name x
    then e ∷ x ∷ xs
    else x ∷ rest

-- `BTreeMap::get`
unfoldable pub get : Text → Text → Tickets → Option TicketData
get kind name xs = find (has_key kind name) xs

-- `BTreeMap::remove`
unfoldable pub remove : Text → Text → Tickets → Tickets
remove kind name [] = []
remove kind name (x ∷ xs) =
    let rest = remove kind name xs in if has_key kind name x then xs else x ∷ rest

pub data N0desMessage : Type 0 where
  auth put_metrics : N0desMessage
  ping : ℕ → N0desMessage
  ticket_publish : TicketData → N0desMessage
  -- the kind and the name
  ticket_unpublish ticket_get : Text → Text → N0desMessage
  -- the kind, the offset and the limit
  ticket_list : Text → ℕ → ℕ → N0desMessage

pub data Reply : Type 0 where
  done : Reply
  pong : ℕ → Reply
  existed : Bool → Reply
  ticket : Option TicketData → Reply
  tickets : List TicketData → Reply

-- The chain of `TicketList`
unfoldable pub page : Text → ℕ → ℕ → Tickets → List TicketData
page kind offset limit xs = take limit (skip offset (keep (λ e. e.ticket_kind == kind) xs))

-- One turn of `server_actor`
unfoldable pub serve : N0desMessage → Tickets → Tickets × Reply
unfolding insert get remove page
serve auth xs = (xs, done)
serve put_metrics xs = (xs, done)
serve (ping req_id) xs = (xs, pong req_id)
serve (ticket_publish e) xs = (insert e xs, done)
serve (ticket_unpublish kind name) xs = (remove kind name xs, existed (is_some (get kind name xs)))
serve (ticket_get kind name) xs = (xs, ticket (get kind name xs))
serve (ticket_list kind offset limit) xs = (xs, tickets (page kind offset limit xs))

-- `server_actor`: the replies to the messages that come
unfoldable pub server_actor : List N0desMessage → Tickets → Tickets × List Reply
unfolding serve
server_actor [] xs = (xs, [])
server_actor (m ∷ ms) xs =
    let (xs', reply) = serve m xs in
    let (xs'', replies) = server_actor ms xs' in (xs'', reply ∷ replies)
