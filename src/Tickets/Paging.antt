-- ===== src/Tickets/Paging.antt =====
-- The pages of `TicketList`.
use datum_connect.Base.{
  ℕ, ◌+◌, ◌≤◌, ◌≡◌, sym, ◌++◌, arith, ◌==◌, option_eq, nat_eq, text_eq, length, keep,
}
use datum_connect.Text.{Text}
use datum_connect.Base.Slices.{take_add, skip_add, take-all, length-keep}
use datum_connect.Tickets.{Tickets, page}

-- Two pages that follow each other are one page of both limits together.
pub page_append :
    (kind : Text) (offset n m : ℕ) (xs : Tickets)
    → page kind offset n xs ++ page kind (offset + n) m xs ≡ page kind offset (n + m) xs
unfolding page
page_append kind offset n m xs =
    rw (sym (skip_add offset n (keep (λ e. e.ticket_kind == kind) xs))) (take_add n m _)

-- A limit that is at least the number of all tickets gives every ticket of the kind.
pub page_all :
    (kind : Text) (n : ℕ) (xs : Tickets)
    → length xs ≤ n
    → page kind 0 n xs ≡ keep (λ e. e.ticket_kind == kind) xs
unfolding page
page_all kind n xs h = take-all n _ (omega (arith, length-keep (λ e. e.ticket_kind == kind) xs))
