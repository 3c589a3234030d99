-- ===== src/Proxy/Leaking.antt =====
-- The request that is counted for good.
use spawngate.Error.{empty}
use spawngate.Base.{
  ◌+◌, ◌%◌, ◌≡◌, ◌≢◌, refl, true, none, some, List, [], ◌∷◌, ◌++◌, arith, ap, ◌∙◌, ◌⊎◌, inl, inr,
  Bool-cases, Option-cases,
}
use spawngate.Base.Text.{Text, codes, text_eq-ne, to_lowercase, text_eq_refl}
use spawngate.Process.State.{ready, is_state, ProcessManager, get_state, get_in_flight, usize_mod}
use spawngate.Process.Ops.{increment_in_flight}
use spawngate.Process.Steps.{Op, run}
use spawngate.Proxy.Http.{HeaderValue, HeaderValues}
use spawngate.Proxy.Parse.{parse_upgrade_response}
use spawngate.Proxy.Upgrade.{
  refused, received, is_hop_by_hop, switch_headers, handle_upgrade, opened,
}

leak-increment :
    (http : HeaderValues) (meanwhile : List Op) (text : Text) (headers : List (Text × Text))
    (h : Text) (m : ProcessManager)
    → parse_upgrade_response text ≡ some (101, headers)
    → switch_headers http headers ≡ none
    → (increment_in_flight h (run m meanwhile)).1 ≡ true
    → handle_upgrade http meanwhile (received text) h m
      ≡ (none, refused, (increment_in_flight h (run m meanwhile)).0)
unfolding handle_upgrade
leak-increment http meanwhile text headers h m parsed bad counted = ground arith

increment-count :
    (m : ProcessManager) (h : Text)
    → (increment_in_flight h m).1 ≡ true
    → get_in_flight (increment_in_flight h m).0 h ≡ (get_in_flight m h + 1) % usize_mod
unfolding increment_in_flight get_in_flight
increment-count m h counted = ground arith

increment-true :
    (m : ProcessManager) (h : Text) → get_state m h ≡ ready → (increment_in_flight h m).1 ≡ true
unfolding increment_in_flight is_state get_state
increment-true m h up = ground arith

module _ (http : HeaderValues) (name value : Text) (v : HeaderValue) (after : List (Text × Text))
    (refuses : http.name_of name ≡ none) (takes : http.from_str value ≡ some v)
    (no_length : to_lowercase name ≢ codes "content-length")
    (no_encoding : to_lowercase name ≢ codes "transfer-encoding") where
  -- One bad name is enough, wherever it stands.
  switch_headers-none :
      (before : List (Text × Text)) → switch_headers http (before ++ ((name, value) ∷ after)) ≡ none
  unfolding switch_headers is_hop_by_hop
  switch_headers-none [] = ground (
    arith,
    refuses,
    takes,
    text_eq-ne (to_lowercase name) (codes "content-length") no_length,
    text_eq-ne (to_lowercase name) (codes "transfer-encoding") no_encoding,
  )
  switch_headers-none ((n, w) ∷ before) = ground (arith, switch_headers-none before)

-- A header whose name the HTTP library refuses, though it takes the value, and which is not left out for
-- its name.
pub record BadName (http : HeaderValues) (headers : List (Text × Text)) : Type 0 where
  pub before : List (Text × Text)
  pub after : List (Text × Text)
  pub name : Text
  pub value : Text
  pub as_value : HeaderValue
  pub here : headers ≡ before ++ ((name, value) ∷ after)
  pub refuses : http.name_of name ≡ none
  pub takes : http.from_str value ≡ some as_value
  pub no_length : to_lowercase name ≢ codes "content-length"
  pub no_encoding : to_lowercase name ≢ codes "transfer-encoding"

BadName-cons :
    (http : HeaderValues) (h : Text × Text) (headers : List (Text × Text))
    → BadName http headers
    → BadName http (h ∷ headers)
BadName-cons http h headers b = record {
  before = h ∷ b.before;
  after = b.after;
  name = b.name;
  value = b.value;
  as_value = b.as_value;
  here = ap (λ x. h ∷ x) b.here;
  refuses = b.refuses;
  takes = b.takes;
  no_length = b.no_length;
  no_encoding = b.no_encoding;
}

switch_headers-BadName :
    (http : HeaderValues) (headers : List (Text × Text))
    → switch_headers http headers ≡ none
    → BadName http headers
unfolding switch_headers is_hop_by_hop
switch_headers-BadName http [] e = cc
switch_headers-BadName http ((n, w) ∷ rest) e = elim (Bool-cases (is_hop_by_hop n)) [
  | inl t ↦ BadName-cons http (n, w) rest (switch_headers-BadName http rest (ground (arith, t)))
  | inr f ↦ elim (Option-cases (http.from_str w)) [
    | inl x ↦
        BadName-cons http (n, w) rest (switch_headers-BadName http rest (ground (arith, f, x)))
    | inr (v, x) ↦ elim (Option-cases (http.name_of n)) [
      | inl y ↦ record {
        before = [];
        after = rest;
        name = n;
        value = w;
        as_value = v;
        here = refl;
        refuses = y;
        takes = x;
        no_length = λ s. ground (arith, f, s, text_eq_refl (codes "content-length"));
        no_encoding = λ s. ground (arith, f, s, text_eq_refl (codes "transfer-encoding"));
      }
      | inr (k, y) ↦ elim (Option-cases (switch_headers http rest)) [
        | inl z ↦ BadName-cons http (n, w) rest (switch_headers-BadName http rest z)
        | inr (hs, z) ↦ absurd (ground (arith, f, x, y, z))
      ]
    ]
  ]
]

BadName-none :
    (http : HeaderValues) (headers : List (Text × Text))
    → BadName http headers
    → switch_headers http headers ≡ none
BadName-none http headers b =
    ap (switch_headers http) b.here
    ∙ switch_headers-none http b.name b.value b.as_value b.after b.refuses b.takes b.no_length
        b.no_encoding b.before

open-increment :
    (http : HeaderValues) (meanwhile : List Op) (text : Text) (headers sent : List (Text × Text))
    (h : Text) (m : ProcessManager)
    → parse_upgrade_response text ≡ some (101, headers)
    → switch_headers http headers ≡ some sent
    → (increment_in_flight h (run m meanwhile)).1 ≡ true
    → handle_upgrade http meanwhile (received text) h m ≡ (
      some (record { status = 101; headers = sent; body = empty }),
      opened,
      (increment_in_flight h (run m meanwhile)).0,
    )
unfolding handle_upgrade
open-increment http meanwhile text headers sent h m parsed good counted =
    ground (arith, parsed, good, counted)

-- A backend that is `Ready` switches protocols. If one of its headers has a name that the HTTP library
-- refuses, a value that it takes, and is neither `content-length` nor `transfer-encoding`, the task
-- panics: the client gets no response and no tunnel is opened. If there is none, the client gets a
-- response and the tunnel is opened. Either way the in-flight count is one higher than when the
-- backend's answer arrived, modulo 2^64, so in the first case it stays so with nothing to take it off.
pub leaked_count :
    (http : HeaderValues) (meanwhile : List Op) (text : Text) (headers : List (Text × Text))
    (h : Text) (m : ProcessManager)
    → parse_upgrade_response text ≡ some (101, headers)
    → get_state (run m meanwhile) h ≡ ready
    → (get_in_flight (handle_upgrade http meanwhile (received text) h m).2 h
        ≡ (get_in_flight (run m meanwhile) h + 1) % usize_mod)
      × ((BadName http headers
            × ((handle_upgrade http meanwhile (received text) h m).0 ≡ none)
            × ((handle_upgrade http meanwhile (received text) h m).1 ≡ refused))
          ⊎ ((¬ BadName http headers)
              × ((handle_upgrade http meanwhile (received text) h m).0 ≢ none)
              × ((handle_upgrade http meanwhile (received text) h m).1 ≡ opened)))
leaked_count http meanwhile text headers h m parsed up =
    let counted = increment-true (run m meanwhile) h up in
    let count = increment-count (run m meanwhile) h counted in
    elim (Option-cases (switch_headers http headers)) [
      | inl bad ↦
          rw (leak-increment http meanwhile text headers h m parsed bad counted)
            (count, inl (switch_headers-BadName http headers bad, refl, refl))
      | inr (sent, good) ↦
          rw (open-increment http meanwhile text headers sent h m parsed good counted)
            (count, inr ((λ b. ground (arith, good, BadName-none http headers b)), (λ e. cc), refl))
    ]
