-- ===== src/Tests/Requests.antt =====
-- Requests on concrete connections.
use mathlib.Core.List.{cons-ne-nil}
use rblpolicyd.Prelude.{
  ◌≡◌, ◌≢◌, ◌↔◌, refl, ap, ◌∙◌, Bool, not, true, false, ◌&&◌, none, some, [], ◌∷◌, ◌++◌,
  append_assoc, append-nil, Bytes, codes, inr, arith,
}
use rblpolicyd.Request.Bounds.{StartsShort, read_request-fault_iff}
use rblpolicyd.Request.Parse.{IsValue, Names, parse_request_iff}
use rblpolicyd.Request.Pieces.{delivers, IsRequest, ends_request-Ends, Ends-ends_request}
use rblpolicyd.Request.Whole.{read_request-joined}
use rblpolicyd.Request.{
  arrived, timeout, buffer, fault, ends_request, equal, pattern, behind, strip, parse_request,
  address_in, copied, value_of, up_to, read_request,
}

-- No proper beginning of `front ++ back` that is at least as long as `front` ends a request.
unfoldable no_early_end : Bytes → Bytes → Bool
no_early_end front [] = true
no_early_end front (c ∷ back) = not (ends_request front) && no_early_end (front ++ c ∷ []) back

no_early_end_sound :
    (front mid back : Bytes)
    → no_early_end front (mid ++ back) ≡ true
    → back ≢ []
    → ends_request (front ++ mid) ≡ false
unfolding no_early_end
no_early_end_sound front [] [] h ne = absurd (ne refl)
no_early_end_sound front [] (c ∷ back) h ne = rw append-nil (ground arith)
no_early_end_sound front (c ∷ mid) back h ne =
    rw (← (append_assoc front (c ∷ []) mid))
      (no_early_end_sound (front ++ c ∷ []) mid back (ground arith) ne)

IsRequest-of_check :
    (request : Bytes)
    → ends_request request ≡ true
    → no_early_end [] request ≡ true
    → IsRequest request
IsRequest-of_check request e h = record {
  ends = ends_request-Ends request e;
  only = λ front back q ne early.
      let no : ends_request front ≡ false =
        no_early_end_sound [] front back (ap (no_early_end []) q ∙ h) ne in
      ground (no, Ends-ends_request front early, arith);
}

abbrev pub piece1 : Bytes
piece1 = codes "request=x\nclient_addre"

abbrev pub piece2 : Bytes
piece2 = codes "ss=192.0.2.1\nsender=a\n\n"

abbrev pub request : Bytes
request = piece1 ++ piece2

pub request-IsRequest : IsRequest request
unfolding ends_request equal no_early_end
request-IsRequest = IsRequest-of_check request refl refl

abbrev pub rest : Bytes
rest = codes "192.0.2.1\nsender=a\n\n"

pub request-behind : behind pattern request ≡ some rest
unfolding behind strip
request-behind = refl

pub rest-IsValue : IsValue rest (codes "192.0.2.1")
rest-IsValue = inr (ground arith, (codes "sender=a\n\n", refl, ground arith))

read_request-joined_example :
    read_request (λ _. true) (delivers (piece1 ∷ piece2 ∷ []) (timeout ∷ [])) ≡ buffer request
read_request-joined_example =
    read_request-joined (λ _. true) piece1 (piece2 ∷ []) (timeout ∷ []) (λ _. refl) (omega arith)
      request-IsRequest (omega arith) (cons-ne-nil _ _, tt)

read_request-fault_iff_example :
    (read_request (λ _. true) (arrived (codes "abc") ∷ []) ≡ fault)
    ↔ StartsShort (λ _. true) (arrived (codes "abc") ∷ [])
read_request-fault_iff_example = read_request-fault_iff (λ _. true) (arrived (codes "abc") ∷ [])

parse_request_iff_example :
    (parse_request (λ _. true) request ≡ some (codes "192.0.2.1"))
    ↔ Names (λ _. true) request (codes "192.0.2.1")
parse_request_iff_example = parse_request_iff (λ _. true) request (codes "192.0.2.1")

-- A carriage return further down the request becomes the end of the value.
parse_request_runs :
    (parse_request (λ _. true) (codes "client_address=1.2.3.4\nsender=a\r\n")
      ≡ some (codes "1.2.3.4\nsender=a"))
    × (parse_request (λ _. true) request ≡ some (codes "192.0.2.1"))
    × (parse_request (λ _. true) (codes "client_name=x\n\n") ≡ none)
unfolding parse_request address_in copied value_of up_to behind strip
parse_request_runs = (refl, refl, refl)
