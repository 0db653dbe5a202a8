-- ===== src/Worker/Verdict.antt =====
-- What a worker answers, from the pieces of the request to the text of the reply.
use rblpolicyd.Worker.Ready.{
  Sends, HasMemory, client_address-Sends, names_fit, client_address-known, prepares-too_long,
}
use rblpolicyd.Prelude.{
  ◌+◌, ◌^◌, ◌<◌, false, ◌≡◌, ◌≢◌, refl, ap, ◌∙◌, List, [], ◌∷◌, Bytes, codes, length, All,
  Option-cases, inl, inr,
}
use rblpolicyd.Address.RoundTrip.{IsInAddr, reversed}
use rblpolicyd.Address.{reverse_name, InAddr, inet_ntop}
use rblpolicyd.CfgFile.{CfgItem}
use rblpolicyd.Request.Parse.{Finds, IsValue, Names, parse_request_iff}
use rblpolicyd.Request.Pieces.{IsRequest}
use rblpolicyd.Request.{Event, pattern, parse_request}
use rblpolicyd.Worker.{worker_with, crashed, Env, named_client, replied, worker_for, worker_th}

-- Where the name for some blacklist is too long for `rqname`, a request that names an address makes
-- the worker write beyond the buffer.
worker_th-too_long :
    (env : Env) (rblist : List CfgItem) (request : Bytes) (conn : List Event) (pre rest : Bytes)
    (a : InAddr)
    → names_fit (inet_ntop (reversed a)) rblist ≡ false
    → HasMemory env
    → length request + 2047 < 2 ^ 31
    → IsRequest request
    → All (λ c. c ≢ 0) request
    → Sends request conn
    → Finds pattern request pre rest
    → IsValue rest (inet_ntop a)
    → IsInAddr a
    → worker_th env rblist conn ≡ crashed
unfolding worker_th worker_for worker_with
worker_th-too_long env rblist request conn pre rest a long memory short is no_nul sends finds value
      h =
    let (o, e, name) =
      client_address-known env request conn pre rest a memory short is no_nul sends finds value h in
    let prepared =
      prepares-too_long env 0 (reverse_name o) rblist memory
        (ap (λ n. names_fit n rblist) name ∙ long) in
    rw (e, prepared) refl

-- A request in which no client address is named is never rejected: the answer is `action=DUNNO`, and
-- no counter changes.
worker_th-unnamed :
    (env : Env) (rblist : List CfgItem) (request : Bytes) (conn : List Event)
    → HasMemory env
    → length request + 2047 < 2 ^ 31
    → IsRequest request
    → All (λ c. c ≢ 0) request
    → Sends request conn
    → ((v : Bytes) → ¬ Names env.malloc request v)
    → worker_th env rblist conn ≡ replied (codes "action=DUNNO" ∷ codes "\n\n" ∷ []) rblist
unfolding worker_th
worker_th-unnamed env rblist request conn memory short is no_nul sends unnamed =
    elim (Option-cases (parse_request env.malloc request)) [
      | inl gone ↦
          rw (client_address-Sends env request conn memory short is no_nul sends, gone)
            (unfold named_client worker_for in refl)
      | inr (v, e) ↦ absurd (unnamed v ((parse_request_iff env.malloc request v).0 e))
    ]
