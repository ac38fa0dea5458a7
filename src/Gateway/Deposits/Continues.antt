-- ===== src/Gateway/Deposits/Continues.antt =====
-- Where the next page of deposits starts.
use juno_exchange_gateway.Gateway.Cursor.RoundTrip.{IsCodec, decode-encode}
use juno_exchange_gateway.Gateway.Response.{data_of}
use mathlib.Core.Path.{subst}
use juno_exchange_gateway.Gateway.Ready.{ReadyConfig, Ready, Readiness, not_ready, ready_for}
use juno_exchange_gateway.Gateway.Deposits.Paging.{IsPage, scan_events-IsPage}
use juno_exchange_gateway.Gateway.Deposits.Handler.{
  DepositSources, DepositsData, DepositsRequest, EventsPage, deposit_cursor_filter, deposit_limit,
  last_id, next_position, query_of, answer_from_cursor, answer_page, encoded_next, handle_deposits,
}
use juno_exchange_gateway.Domain.Hex.{codes}
use juno_exchange_gateway.Gateway.Cursor.{
  decode, refused, Decoded, CursorError, CursorPayload, at_position, invalid, reset_required,
  filter_mismatch,
}
use juno_exchange_gateway.Gateway.Deposits.{
  scanned, Deposit, DepositQuery, scan_events, broken, Scan,
}
use juno_exchange_gateway.Gateway.Effects.{ScannerEvent}
use juno_exchange_gateway.Prelude.{
  List, Option, [], arith, none, refl, some, ℕ, ◌<◌, ◌∷◌, ◌≡◌, Option-cases, String, ap, inl, inr,
  str_eq_iff, sym, ◌∙◌, ◌⊎◌,
}

-- An answer: the page that it shows, from the request's cursor to the cursor that it hands out.
pub record IsDelivered (cfg : ReadyConfig) (req : DepositsRequest) (src : DepositSources)
    (d : DepositsData) : Type 0 where
  pub limit : ℕ
  pub position : ℕ
  pub high : ℕ
  pub page : EventsPage
  pub limit_eq : deposit_limit req.limit ≡ some limit
  pub start_eq :
      decode src.codec req.cursor
        (codes req.wallet_id)
        (codes d.event_epoch)
        (deposit_cursor_filter req src)
      ≡ at_position position
  pub page_eq : src.events position ≡ some page
  pub delivered : IsPage (query_of cfg req src) limit position page.events d.deposits high
  pub next_eq :
      decode src.codec d.next_cursor
        (codes req.wallet_id)
        (codes d.event_epoch)
        (deposit_cursor_filter req src)
      ≡ at_position high

next_position_lem :
    (limit : ℕ) (page : EventsPage) (events : List ScannerEvent) (items : List Deposit)
    (position read : ℕ)
    → page.events ≡ events
    → page.next_cursor ≡ last_id position events
    → (events ≡ [] → read ≡ position)
    → next_position limit page items read ≡ read
unfolding next_position last_id
next_position_lem limit page [] items position read p n e =
    let i = e refl in ground (arith, p, n, i)
next_position_lem limit page (x ∷ xs) items position read p n e = ground (arith, p, n)

read_empty :
    (q : DepositQuery) (limit position read : ℕ) (events : List ScannerEvent) (items : List Deposit)
    → scan_events q limit position events ≡ scanned items read
    → events ≡ []
    → read ≡ position
unfolding scan_events
read_empty q limit position read [] items h e = ground (arith, h)
read_empty q limit position read (x ∷ xs) items h e = absurd (cc e)

deposit_limit_pos : (o : Option (Option ℕ)) (n : ℕ) → deposit_limit o ≡ some n → 0 < n
unfolding deposit_limit
deposit_limit_pos none n h = ground (arith, h)
deposit_limit_pos (some none) n h = absurd (cc h)
deposit_limit_pos (some (some m)) n h = ground (arith, h)

Scan-cases :
    (s : Scan) → (s ≡ broken) ⊎ ((items : List Deposit) × (read : ℕ) × (s ≡ scanned items read))
Scan-cases broken = inl refl
Scan-cases (scanned items read) = inr (items, read, refl)

pub Ready-cases :
    (r : Ready) → ((c : String) × (r ≡ not_ready c)) ⊎ ((x : Readiness) × (r ≡ ready_for x))
Ready-cases (not_ready c) = inl (c, refl)
Ready-cases (ready_for x) = inr (x, refl)

Decoded-cases :
    (r : Decoded) → ((e : CursorError) × (r ≡ refused e)) ⊎ ((n : ℕ) × (r ≡ at_position n))
Decoded-cases (refused e) = inl (e, refl)
Decoded-cases (at_position n) = inr (n, refl)

answer_page_sound :
    (cfg : ReadyConfig) (req : DepositsRequest) (src : DepositSources) (limit : ℕ) (epoch : String)
    (position : ℕ) (page : EventsPage) (status : ℕ) (d : DepositsData)
    → answer_page cfg req src limit epoch position page ≡ data_of status d
    → 0 < limit
    → (high : ℕ) × IsPage (query_of cfg req src) limit position page.events d.deposits high
      × (d.event_epoch ≡ epoch)
      × (d.next_cursor ≡ encoded_next req src epoch high)
unfolding answer_page
answer_page_sound cfg req src limit epoch position page status d h pos =
    let q = query_of cfg req src in
    let e : page.event_epoch ≡ epoch = (str_eq_iff page.event_epoch epoch).0 (ground (arith, h)) in
    let n : page.next_cursor ≡ last_id position page.events = ground (arith, h) in
    elim (Scan-cases (scan_events q limit position page.events)) [
      | inl b ↦ absurd (ground (arith, h, b))
      | inr (items, read, s) ↦
          let same : d.deposits ≡ items = ground (arith, h, s) in
          let k =
            next_position_lem limit page page.events items position read refl n
              (read_empty q limit position read page.events items s) in
          let c : d.next_cursor
              ≡ encoded_next req src page.event_epoch (next_position limit page items read) =
            ground (arith, h, s) in
          let f : d.event_epoch ≡ page.event_epoch = ground (arith, h, s) in
          (
            read,
            subst (λ x. IsPage q limit position page.events x read) (sym same)
                (scan_events-IsPage q limit position page.events items read pos s),
            f ∙ e,
            c
                ∙ ap (λ x. encoded_next req src page.event_epoch x) k
                ∙ ap (λ x. encoded_next req src x read) e,
          )
    ]

encoded_next-decode :
    (req : DepositsRequest) (src : DepositSources) (epoch : String) (cursor : List ℕ) (n : ℕ)
    → IsCodec src.codec
    → (let p : CursorPayload = record {
      version = 2;
      wallet_id = codes req.wallet_id;
      epoch = codes epoch;
      filter = deposit_cursor_filter req src;
      position = n;
    } in
        src.codec.unmarshal (src.codec.marshal p) ≡ some p)
    → cursor ≡ encoded_next req src epoch n
    → decode src.codec cursor (codes req.wallet_id) (codes epoch) (deposit_cursor_filter req src)
      ≡ at_position n
unfolding encoded_next
encoded_next-decode req src epoch cursor n hc json h =
    let w = codes req.wallet_id in
    let e = codes epoch in
    let f = deposit_cursor_filter req src in
    ap (λ x. decode src.codec x w e f) h ∙ decode-encode src.codec w e f n hc json

-- Where JSON reads back the payloads that it writes for this wallet, epoch and filter, and the
-- libraries do what they document, an answer with deposits is the page behind the position of the
-- request's cursor, of at most the query's limit, and the cursor that it hands out is accepted again in
-- the same epoch and continues at the last event that the page has read.
pub handle_deposits-IsDelivered :
    (cfg : ReadyConfig) (req : DepositsRequest) (src : DepositSources) (status : ℕ)
    (d : DepositsData)
    → IsCodec src.codec
    → ((n : ℕ)
        → (let p : CursorPayload = record {
          version = 2;
          wallet_id = codes req.wallet_id;
          epoch = codes d.event_epoch;
          filter = deposit_cursor_filter req src;
          position = n;
        } in
            src.codec.unmarshal (src.codec.marshal p) ≡ some p))
    → handle_deposits cfg req src ≡ data_of status d
    → IsDelivered cfg req src d
unfolding handle_deposits answer_from_cursor encoded_next
handle_deposits-IsDelivered cfg req src status d hc json h =
    elim (Option-cases (deposit_limit req.limit)) [
      | inl n ↦ absurd (ground (arith, h, n))
      | inr (limit, n) ↦ elim (Ready-cases src.ready) [
        | inl (code, r) ↦ absurd (ground (arith, h, n, r))
        | inr (ready, r) ↦
            let epoch = ready.scanner.event_epoch in
            elim (Decoded-cases (
              decode src.codec req.cursor (codes req.wallet_id) (codes epoch)
                (deposit_cursor_filter req src))) [
                  | inl (invalid, c) ↦ absurd (ground (arith, h, n, r, c))
                  | inl (reset_required, c) ↦ absurd (ground (arith, h, n, r, c))
                  | inl (filter_mismatch, c) ↦ absurd (ground (arith, h, n, r, c))
                  | inr (position, c) ↦ elim (Option-cases (src.events position)) [
                    | inl g ↦ absurd (ground (arith, h, n, r, c, g))
                    | inr (page, g) ↦
                        let s =
                          answer_page_sound cfg req src limit epoch position page status d
                            (ground (arith, h, n, r, c, g)) (deposit_limit_pos req.limit limit n) in
                        let i : d.event_epoch ≡ epoch = s.2 in
                        record {
                          limit = limit;
                          position = position;
                          high = s.0;
                          page = page;
                          limit_eq = n;
                          start_eq =
                              ap
                                (λ x.
                                  decode src.codec req.cursor (codes req.wallet_id) (codes x)
                                    (deposit_cursor_filter req src))
                                i
                              ∙ c;
                          page_eq = g;
                          delivered = s.1;
                          next_eq =
                              encoded_next-decode req src d.event_epoch d.next_cursor s.0 hc
                                (json s.0) (s.3 ∙ ap (λ x. encoded_next req src x s.0) (sym i));
                        }
                  ]
                ]
      ]
    ]
