-- ===== src/Client/Requests.antt =====
-- The requests of the client as a server reads them: lines up to an empty one.
use sockcan.Prelude.{ℕ, zero, suc, List, [], ◌∷◌, ◌++◌, ◌≡◌, ◌≢◌, refl, ap, ◌∙◌, arith, true, false}
use sockcan.Prelude.{
  Bool, not, ◌&&◌, ◌==◌, if◌then◌else◌, All, All-append, All-implies, ◌≤◌, append_assoc,
}
use sockcan.Prelude.{Text, codes, join, str, decimal-digits}
use sockcan.Client.{http_delimiter, host_line, request_line, upgrade_request}

abbrev is_empty : Text → Bool
is_empty [] = true
is_empty (c ∷ cs) = false

-- The text up to a line feed, without the carriage returns at its end, and what follows it.
unfoldable pub read_line : Text → Text × Text
read_line [] = ([], [])
read_line (c ∷ cs) =
    let rest = read_line cs in
    if c == 10
    then ([], cs)
    else if c == 13 && is_empty rest.0
    then ([], rest.1)
    else (c ∷ rest.0, rest.1)

-- The lines of a head, and what follows it: at most `n` of them.
unfoldable pub head_from : Text → Text → List Text × Text → List Text × Text
head_from [] after rest = ([], after)
head_from (c ∷ line) after rest = ((c ∷ line) ∷ rest.0, rest.1)

unfoldable pub read_head : ℕ → Text → List Text × Text
unfolding read_line head_from
read_head zero text = ([], text)
read_head (suc n) text = let r = read_line text in head_from r.0 r.1 (read_head n r.1)

abbrev pub IsInline : ℕ → Type 0
IsInline c = (c ≢ 13) × (c ≢ 10)

-- It has no carriage return and no line feed.
abbrev pub IsLine : Text → Type 0
IsLine = All IsInline

read_line-line : (l rest : Text) → IsLine l → read_line (l ++ (http_delimiter ++ rest)) ≡ (l, rest)
unfolding read_line
read_line-line [] rest h = refl
read_line-line (c ∷ l) rest h = ground (arith, h.0.0, h.0.1, read_line-line l rest h.1)

-- A line that is not empty is the first of the head.
read_head-line :
    (n : ℕ) (l rest : Text) (r : List Text × Text)
    → IsLine l
    → l ≢ []
    → read_head n rest ≡ r
    → read_head (suc n) (l ++ (http_delimiter ++ rest)) ≡ (l ∷ r.0, r.1)
unfolding read_head head_from
read_head-line n [] rest r h some_text e = absurd (some_text refl)
read_head-line n (c ∷ l) rest r h some_text e =
    ap (λ q. head_from q.0 q.1 (read_head n q.1)) (read_line-line (c ∷ l) rest h)
    ∙ ap (λ q. ((c ∷ l) ∷ q.0, q.1)) e

read_head-end : (n : ℕ) (rest : Text) → read_head (suc n) (http_delimiter ++ rest) ≡ ([], rest)
unfolding read_head read_line head_from
read_head-end n rest = refl

unfoldable pub is_line : Text → Bool
is_line [] = true
is_line (c ∷ l) = not (c == 13) && not (c == 10) && is_line l

-- A line that is written out.
pub is_line-IsLine : (l : Text) → is_line l ≡ true → IsLine l
unfolding is_line
is_line-IsLine [] h = tt
is_line-IsLine (c ∷ l) h =
    ((λ e. ground (arith, h, e), λ e. ground (arith, h, e)), is_line-IsLine l (ground (arith, h)))

host_line-IsLine : (host : Text) (port : ℕ) → IsLine host → IsLine (host_line host port)
unfolding host_line str is_line
host_line-IsLine host port h =
    All-append IsInline (codes "Host: ") _ (is_line-IsLine (codes "Host: ") refl) (
      All-append IsInline host _ h (
        All-append IsInline (codes ":") _ (is_line-IsLine (codes ":") refl) (
          All-implies (λ c. 48 ≤ c × c ≤ 57) IsInline (str port)
            (λ c digit. (λ e. omega (arith, digit.0, e), λ e. omega (arith, digit.0, e)))
            (decimal-digits port port))))

request_line-IsLine : (params : Text) → IsLine params → IsLine (request_line params)
unfolding request_line is_line
request_line-IsLine params h =
    All-append IsInline (codes "GET /subscribe?") _ (is_line-IsLine (codes "GET /subscribe?") refl)
      (All-append IsInline params _ h (is_line-IsLine (codes " HTTP/1.1") refl))

join_four :
    (sep a b c d end : Text)
    → join sep ((a ++ sep) ∷ b ∷ c ∷ d ∷ []) ++ end
      ≡ a ++ (sep ++ (sep ++ (b ++ (sep ++ (c ++ (sep ++ (d ++ end)))))))
unfolding join
join_four sep a b c d end = simp append_assoc

-- A server that ends its lines at a line feed, without the carriage returns before it, and the head at
-- an empty line, reads the upgrade request as its request line alone: the extra delimiter after that
-- line ends the head, and the three header lines are left behind it, as data that follows the request.
-- Neither the query nor the name of the host has a carriage return or a line feed.
pub upgrade_request-read_head :
    (n : ℕ) (host : Text) (port : ℕ) (params : Text)
    → IsLine host
    → IsLine params
    → read_head (suc (suc n)) (upgrade_request host port params) ≡ (
      request_line params ∷ [],
      host_line host port
          ++ (http_delimiter
              ++ (codes "Connection: Upgrade"
                  ++ (http_delimiter ++ (codes "Upgrade: socketcan" ++ http_delimiter)))),
    )
unfolding upgrade_request request_line
upgrade_request-read_head n host port params h g =
    ap (read_head (suc (suc n))) (
      join_four http_delimiter (request_line params) (host_line host port)
        (codes "Connection: Upgrade") (codes "Upgrade: socketcan") http_delimiter)
    ∙ read_head-line (suc n) (request_line params) _ _ (request_line-IsLine params g) (λ e. cc)
        (read_head-end n _)
