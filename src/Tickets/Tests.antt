-- ===== src/Tickets/Tests.antt =====
-- A run of the ticket server, and an instance of its theorem.
use datum_connect.Base.{ℕ, ◌≡◌, refl, true, none, List, [], ◌∷◌, option_eq, nat_eq, text_eq}
use datum_connect.Text.{Text, codes}
use datum_connect.Tickets.{
  TicketData, N0desMessage, ping, ticket_publish, ticket_unpublish, ticket_get, ticket_list, done,
  pong, existed, ticket, tickets, server_actor, serve, insert, get, remove, page,
}
use datum_connect.Tickets.Order.{lt_text}
use datum_connect.Tickets.Refinement.{AnswersAll, empty_table, server_actor-refines}

abbrev ticket_of : Text → ℕ → TicketData
ticket_of n b = record { ticket_kind = codes "proxy"; name = n; ticket_bytes = b ∷ [] }

abbrev session : List N0desMessage
session =
    ticket_publish (ticket_of (codes "b") 1)
    ∷ ticket_publish (ticket_of (codes "a") 2)
    ∷ ticket_publish (ticket_of (codes "b") 3)
    ∷ ticket_list (codes "proxy") 0 10
    ∷ ticket_unpublish (codes "proxy") (codes "a")
    ∷ ticket_get (codes "proxy") (codes "a")
    ∷ ping 7
    ∷ []

-- The list is in the order of the names, with the last ticket of a name.
replies : (server_actor session []).1 ≡ (
    done
    ∷ done
    ∷ done
    ∷ tickets (ticket_of (codes "a") 2 ∷ ticket_of (codes "b") 3 ∷ [])
    ∷ existed true
    ∷ ticket none
    ∷ pong 7
    ∷ [])
unfolding server_actor serve insert get remove page lt_text nat_eq text_eq
replies = refl

server_actor-refines_example : AnswersAll empty_table session (server_actor session []).1
server_actor-refines_example = server_actor-refines session
