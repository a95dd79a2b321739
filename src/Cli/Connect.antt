-- ===== src/Cli/Connect.antt =====
-- cli/src/tunnel_dev.rs: the CONNECT request to the gateway and the reading of its response. The
-- stream is the list of the chunks that the reads return, at most 1024 bytes each; its end is a read
-- of nothing.
use datum_connect.Base.{
  ℕ, suc, ◌+◌, ◌*◌, ◌≤◌, ◌≡◌, ◌⊎◌, inl, inr, Bool-cases, Bool, true, ◌||◌, Option, none, some, List,
  [], ◌∷◌, ◌++◌, arith, if◌then◌else◌, ◌==◌, option_eq, nat_eq, text_eq, ltb, leb, length, take,
  Option-cases, Result, ok, err, ◌>>=◌, context, Result-cases,
}
use mathlib.Core.List.{append_assoc}
use datum_connect.Text.Prefix.{starts_with-append, Within, contains-Within}
use datum_connect.Text.{Text, codes, contains, starts_with, strip_prefix, print_uint}

-- The request that `handle_connection` writes
unfoldable pub connect_request : Text → Text → ℕ → Text
connect_request node_id target_host target_port =
    let authority = target_host ++ b':' ∷ print_uint target_port in
    codes "CONNECT "
    ++ (authority
        ++ (codes " HTTP/1.1\r\nHost: "
            ++ (authority ++ (codes "\r\nx-iroh-endpoint-id: " ++ (node_id ++ codes "\r\n\r\n")))))

abbrev pub max_connect_response : ℕ
max_connect_response = 16 * 1024

-- `buf.windows(4).position(…)`, and 4 more
unfoldable pub find_header_end : List ℕ → Option ℕ
find_header_end [] = none
find_header_end (c ∷ buf) =
    let rest = find_header_end buf in
    if starts_with (c ∷ buf) (codes "\r\n\r\n")
    then some 4
    else elim rest [ none ↦ none | some n ↦ some (suc n) ]

-- The loop of `read_connect_response`: the bytes read so far, with the end of the header in them, and
-- the chunks that are not read yet.
unfoldable pub read_header : List ℕ → List (List ℕ) → Result (List ℕ × ℕ × List (List ℕ))
unfolding find_header_end
read_header buf [] = err "gateway closed before CONNECT response"
read_header buf (chunk ∷ stream) =
    let more = buf ++ chunk in
    let rest = read_header more stream in
    if leb (length chunk) 0
    then err "gateway closed before CONNECT response"
    else if ltb max_connect_response (length more)
    then err "CONNECT response headers too large"
    else elim (find_header_end more) [ some n ↦ ok (more, n, stream) | none ↦ rest ]

-- `header.lines().next().unwrap_or_default()`: to the line's end, without it
unfoldable pub first_line : Text → Text
first_line [] = []
first_line (c ∷ s) =
    let rest = first_line s in
    if c == b'\n' then [] else if starts_with (c ∷ s) (codes "\r\n") then [] else c ∷ rest

abbrev pub is_accepted : Text → Bool
is_accepted status_line =
    contains status_line (codes " 200 ") || starts_with status_line (codes "HTTP/1.1 200")

module _ (from_utf8 : List ℕ → Option Text) where
  -- `read_connect_response`, with the chunks that are left for `copy_bidirectional`
  unfoldable pub read_connect_response : List (List ℕ) → Result (List (List ℕ))
  unfolding read_header first_line
  read_connect_response stream = do
    (buf, header_end, rest) ← read_header [] stream
    header ← context (from_utf8 (take header_end buf)) "CONNECT response was not valid UTF-8"
    if is_accepted (first_line header) then ok rest else err "CONNECT failed"

abbrev pub concat : List (List ℕ) → List ℕ
concat [] = []
concat (c ∷ cs) = c ++ concat cs

strip_prefix-length : (s p r : Text) → strip_prefix s p ≡ some r → length s ≡ length p + length r
strip_prefix-length s [] r h = ground arith
strip_prefix-length [] (p ∷ ps) r h = ground arith
strip_prefix-length (c ∷ s) (p ∷ ps) r h = ground (arith, strip_prefix-length s ps r)

starts_with-length : (s p : Text) → starts_with s p ≡ true → length p ≤ length s
starts_with-length s p h = elim (Option-cases (strip_prefix s p)) [
  | inl e ↦ ground arith
  | inr (r, e) ↦ ground (arith, strip_prefix-length s p r)
]

find_header_end-bound :
    (buf : List ℕ) (n : ℕ) → find_header_end buf ≡ some n → (4 ≤ n) × (n ≤ length buf)
unfolding find_header_end
find_header_end-bound [] n h = ground arith
find_header_end-bound (c ∷ buf) n h = elim (Option-cases (find_header_end buf)) [
  | inl e ↦ ground (arith, starts_with-length (c ∷ buf) (codes "\r\n\r\n"))
  | inr (k, e) ↦
      ground (arith, find_header_end-bound buf k e, starts_with-length (c ∷ buf) (codes "\r\n\r\n"))
]

-- The loop stops with at most 16 KiB, which are the stream's bytes up to the chunk in which the header
-- ends, and neither loses nor repeats any.
pub read_header_lem :
    (buf more : List ℕ) (n : ℕ) (stream rest : List (List ℕ))
    → read_header buf stream ≡ ok (more, n, rest)
    → (find_header_end more ≡ some n)
      × (length more ≤ max_connect_response)
      × (n ≤ length more)
      × (more ++ concat rest ≡ buf ++ concat stream)
unfolding read_header
read_header_lem buf more n [] rest h = ground arith
read_header_lem buf more n (chunk ∷ stream) rest h = ground (
  arith,
  read_header_lem (buf ++ chunk) more n stream rest,
  find_header_end-bound (buf ++ chunk) n,
  append_assoc buf chunk (concat stream),
)

-- The line says 200 between blanks, or begins as an answer of HTTP/1.1 with 200 does.
abbrev pub Accepts : Text → Type 0
Accepts line =
    Within (codes " 200 ") line ⊎ ((behind : Text) × (line ≡ codes "HTTP/1.1 200" ++ behind))

is_accepted-Accepts : (line : Text) → is_accepted line ≡ true → Accepts line
is_accepted-Accepts line h = elim (Bool-cases (contains line (codes " 200 "))) [
  | inl e ↦ inl (contains-Within line (codes " 200 ") e)
  | inr e ↦ inr (starts_with-append line (codes "HTTP/1.1 200") (ground arith))
]

find_header_end-append :
    (buf : List ℕ) (n : ℕ)
    → find_header_end buf ≡ some n
    → (before : List ℕ) × (take n buf ≡ before ++ codes "\r\n\r\n")
unfolding find_header_end
find_header_end-append [] n h = ground arith
find_header_end-append (c ∷ buf) n h =
    elim (Bool-cases (starts_with (c ∷ buf) (codes "\r\n\r\n"))) [
      | inl e ↦
          let (r, q) = starts_with-append (c ∷ buf) (codes "\r\n\r\n") e in ([], ground (arith, q))
      | inr e ↦ elim (Option-cases (find_header_end buf)) [
        | inl f ↦ ground arith
        | inr (k, f) ↦
            let (before, q) = find_header_end-append buf k f in (c ∷ before, ground (arith, q))
      ]
    ]

-- When the tunnel is opened, the chunks up to the one that ends the header were read, at most 16 KiB;
-- the bytes read up to a blank line are the header, whose first line has " 200 " in it or begins with
-- HTTP/1.1 200; and the chunks behind those that were read are left for the tunnel. Bytes behind the
-- header in the last chunk that was read are not among those.
pub read_connect_response_lem :
    (from_utf8 : List ℕ → Option Text) (stream rest : List (List ℕ))
    → read_connect_response from_utf8 stream ≡ ok rest
    → (buf : List ℕ) × (n : ℕ) × (before : List ℕ) × (header : Text) × (take n buf
        ≡ before ++ codes "\r\n\r\n")
      × (length buf ≤ max_connect_response)
      × (buf ++ concat rest ≡ concat stream)
      × (from_utf8 (take n buf) ≡ some header)
      × Accepts (first_line header)
unfolding read_connect_response
read_connect_response_lem from_utf8 stream rest h = elim (Result-cases (read_header [] stream)) [
  | inr (m, e) ↦ ground arith
  | inl ((buf, n, left), e) ↦ elim (Option-cases (from_utf8 (take n buf))) [
    | inl q ↦ ground arith
    | inr (header, q) ↦
        let (f, l, b, c) = read_header_lem [] buf n stream left e in
        let (before, t) = find_header_end-append buf n f in
        (
          buf,
          n,
          before,
          header,
          t,
          l,
          ground (arith, c),
          q,
          is_accepted-Accepts (first_line header) (ground arith),
        )
  ]
]
