-- ===== src/Preflight/Ready.antt =====
-- When the preflight is ready.
use hypertron_sw01_ros2_brid.Prelude.{
  ℕ, ◌≡◌, ◌↔◌, ◌≢◌, inl, inr, refl, sym, ap, ◌∙◌, subst, Bool, true, false, ◌&&◌, ◌||◌, not, List,
  [], ◌∷◌, none, some, arith, if◌then◌else◌, match_cases, match_some, Bool-cases, Option-cases,
  get_elem?, zero, suc, ◌==◌, ==_iff,
}
use hypertron_sw01_ros2_brid.Prelude.Text.{Bytes, bytes_eq, is_empty, bytes_eq_sound, bytes_eq_refl}
use hypertron_sw01_ros2_brid.Preflight.{
  AddressLib, ParsedAddress, NetworkFacts, NetworkExpectation, NetworkDecision, join_failures,
  parse_address, same_address, is_host, finds_host, address_problem, route_problem, decide,
  evaluate_network, check_address,
}

join_failures-empty : (a b : Bytes) → is_empty (join_failures a b) ≡ (is_empty a && is_empty b)
unfolding join_failures
join_failures-empty [] b = refl
join_failures-empty (x ∷ a) [] = refl
join_failures-empty (x ∷ a) (y ∷ b) = refl

two_problems :
    (b1 b2 : Bool) (x y : Bytes)
    → is_empty x ≡ false
    → is_empty y ≡ false
    → is_empty (if not b1 then x else if b2 then [] else y) ≡ (b1 && b2)
two_problems false b2 x y hx hy = hx
two_problems true false x y hx hy = hy
two_problems true true x y hx hy = refl

four_problems :
    (b1 b2 b3 b4 : Bool) (x y z w : Bytes)
    → is_empty x ≡ false
    → is_empty y ≡ false
    → is_empty z ≡ false
    → is_empty w ≡ false
    → is_empty
        (if not b1 then x else if b2 then y else if not b3 then z else if not b4 then w else [])
      ≡ (b1 && (not b2 && (b3 && b4)))
four_problems false b2 b3 b4 x y z w hx hy hz hw = hx
four_problems true true b3 b4 x y z w hx hy hz hw = hy
four_problems true false false b4 x y z w hx hy hz hw = hz
four_problems true false true false x y z w hx hy hz hw = hw
four_problems true false true true x y z w hx hy hz hw = refl

and_split : (a b : Bool) → (a && b) ≡ true → (a ≡ true) × (b ≡ true)
and_split true b h = (refl, h)
and_split false b h = cc

and_join : (a b : Bool) → a ≡ true → b ≡ true → (a && b) ≡ true
and_join a b h h' = rw h h'

is_empty_sound : (s : Bytes) → is_empty s ≡ true → s ≡ []
is_empty_sound [] h = refl
is_empty_sound (x ∷ s) h = cc

same_fields :
    (a b : ParsedAddress)
    → a.address ≡ b.address
    → a.has_prefix ≡ b.has_prefix
    → a.prefix ≡ b.prefix
    → a ≡ b
same_fields a b p q r = λ i. record { address = p i; has_prefix = q i; prefix = r i }

same_prefix : (a b : Bool) → (if a then b else not b) ≡ true → a ≡ b
same_prefix true b h = sym h
same_prefix false true h = cc
same_prefix false false h = refl

prefix_is :
    (b : Bool) (n m : ℕ)
    → (not b || n == m) ≡ true
    → (b ≡ false → n ≡ 0)
    → (b ≡ false → m ≡ 0)
    → n ≡ m
prefix_is true n m h p q = (==_iff n m).0 h
prefix_is false n m h p q = p refl ∙ sym (q refl)

same_is :
    (a host : ParsedAddress)
    → same_address host a ≡ true
    → (a.has_prefix ≡ false → a.prefix ≡ 0)
    → (host.has_prefix ≡ false → host.prefix ≡ 0)
    → a ≡ host
same_is a host h p q =
    let (text, h) = and_split _ _ h in
    let (kind, number) = and_split _ _ h in
    let e = same_prefix a.has_prefix host.has_prefix kind in
    same_fields a host (bytes_eq_sound a.address host.address text) e
      (prefix_is host.has_prefix a.prefix host.prefix number (λ x. p (e ∙ x)) q)

same_refl : (a : ParsedAddress) → same_address a a ≡ true
same_refl a =
    and_join (bytes_eq a.address a.address) _ (bytes_eq_refl a.address)
      (flags a.has_prefix a.prefix)
  where
    flags : (b : Bool) (n : ℕ) → ((if b then b else not b) && (not b || n == n)) ≡ true
    flags true n = (==_iff n n).1 refl
    flags false n = refl

entry_is : {A : Type 0} {a b : A} → some a ≡ some b → a ≡ b
entry_is e = cc

is_unset : {b : Bool} → not b ≡ true → b ≡ false
is_unset {b} h = ground arith

or_right : (a : Bool) {b : Bool} → b ≡ true → (a || b) ≡ true
or_right true h = refl
or_right false h = h

module _ ⦃lib : AddressLib⦄ where
  address_problem-empty :
      (facts : NetworkFacts) (expected : NetworkExpectation) (host : ParsedAddress)
      → is_empty (address_problem facts expected host)
        ≡ (is_empty facts.addresses_error && finds_host host facts.addresses)
  unfolding address_problem
  address_problem-empty facts expected host =
      two_problems (is_empty facts.addresses_error) (finds_host host facts.addresses) _ _ refl refl

  route_problem-empty :
      (facts : NetworkFacts) (expected : NetworkExpectation) (host : ParsedAddress)
      → is_empty (route_problem facts expected host) ≡ (
          is_empty facts.route_error
          && (not (is_empty facts.route_interface)
              && (bytes_eq facts.route_interface expected.interface
                  && bytes_eq facts.route_source host.address)))
  unfolding route_problem
  route_problem-empty facts expected host =
      four_problems (is_empty facts.route_error) (is_empty facts.route_interface)
        (bytes_eq facts.route_interface expected.interface)
        (bytes_eq facts.route_source host.address) _ _ _ _ refl refl refl refl

  decide-ready :
      (expected : NetworkExpectation) (problem : Bytes)
      → (decide expected problem).ready ≡ is_empty problem
  unfolding decide
  decide-ready expected [] = refl
  decide-ready expected (x ∷ problem) = refl

  decide-message :
      (expected : NetworkExpectation) (problem : Bytes)
      → is_empty (decide expected problem).message ≡ false
  unfolding decide
  decide-message expected [] = refl
  decide-message expected (x ∷ problem) = refl

  -- An address without a prefix has the prefix 0 that it was constructed with.
  plain-prefix :
      (cidr : Bytes) (a : ParsedAddress)
      → parse_address cidr ≡ some a
      → a.has_prefix ≡ false
      → a.prefix ≡ 0
  unfolding parse_address check_address
  plain-prefix cidr a h no_prefix = ground arith

  -- The expected address is one of the host's, and the route to the robot goes out on the expected
  -- interface from that address; nothing of it failed to be read.
  pub record IsReady (facts : NetworkFacts) (expected : NetworkExpectation) (host : ParsedAddress)
      : Type 0 where
    pub parsed : parse_address expected.host_address ≡ some host
    pub addresses_read : facts.addresses_error ≡ []
    pub listed :
        (i : ℕ) × (entry : Bytes) × (get_elem? facts.addresses i ≡ some entry)
        × (parse_address entry ≡ some host)
    pub route_read : facts.route_error ≡ []
    pub routed : facts.route_interface ≡ expected.interface
    pub named : is_empty expected.interface ≡ false
    pub sourced : facts.route_source ≡ host.address

  is_host-parsed :
      (text entry : Bytes) (host : ParsedAddress)
      → parse_address text ≡ some host
      → is_host host entry ≡ true
      → parse_address entry ≡ some host
  is_host-parsed text entry host h e =
      match_cases (λ b. b ≡ true → parse_address entry ≡ some host) (parse_address entry) false
        (same_address host) (λ _ e. cc)
        (λ a read e.
          read ∙ ap some (same_is a host e (plain-prefix entry a read) (plain-prefix text host h)))
        e

  parsed-is_host :
      (entry : Bytes) (host : ParsedAddress)
      → parse_address entry ≡ some host
      → is_host host entry ≡ true
  parsed-is_host entry host h =
      match_some (parse_address entry) false (same_address host) host true h (same_refl host)

  finds_host-listed :
      (host : ParsedAddress) (entries : List Bytes)
      → finds_host host entries ≡ true
      → (i : ℕ) × (entry : Bytes) × (get_elem? entries i ≡ some entry) × (is_host host entry ≡ true)
  unfolding finds_host
  finds_host-listed host [] h = cc
  finds_host-listed host (entry ∷ entries) h = elim (Bool-cases (is_host host entry)) [
    | inl found ↦ (0, entry, refl, found)
    | inr other ↦
        let (i, e, at, found) = finds_host-listed host entries (rw other at h) in
        (suc i, e, at, found)
  ]

  listed-finds_host :
      (host : ParsedAddress) (entries : List Bytes) (i : ℕ) (entry : Bytes)
      → get_elem? entries i ≡ some entry
      → is_host host entry ≡ true
      → finds_host host entries ≡ true
  unfolding finds_host
  listed-finds_host host [] i entry at h = cc
  listed-finds_host host (x ∷ xs) zero entry at h =
      rw (subst (λ y. is_host host y ≡ true) (sym (entry_is at)) h) refl
  listed-finds_host host (x ∷ xs) (suc i) entry at h =
      or_right (is_host host x) (listed-finds_host host xs i entry at h)

  evaluation-ready :
      (facts : NetworkFacts) (expected : NetworkExpectation) (host : ParsedAddress)
      → parse_address expected.host_address ≡ some host
      → (evaluate_network facts expected).ready ≡ (
          (is_empty facts.addresses_error && finds_host host facts.addresses)
          && (is_empty facts.route_error
              && (not (is_empty facts.route_interface)
                  && (bytes_eq facts.route_interface expected.interface
                      && bytes_eq facts.route_source host.address))))
  unfolding evaluate_network
  evaluation-ready facts expected host h =
      rw (h, evaluate_network)
        (decide-ready expected _
          ∙ join_failures-empty (address_problem facts expected host)
              (route_problem facts expected host)
          ∙ (λ i.
              address_problem-empty facts expected host i
              && route_problem-empty facts expected host i))

  not_ready :
      (facts : NetworkFacts) (expected : NetworkExpectation)
      → parse_address expected.host_address ≡ none
      → (evaluate_network facts expected).ready ≢ true
  unfolding evaluate_network
  not_ready facts expected malformed = rw (malformed, evaluate_network) (λ h. cc)

  sound :
      (facts : NetworkFacts) (expected : NetworkExpectation)
      → (evaluate_network facts expected).ready ≡ true
      → (host : ParsedAddress) × IsReady facts expected host
  sound facts expected h = elim (Option-cases (parse_address expected.host_address)) [
    | inl malformed ↦ absurd (not_ready facts expected malformed h)
    | inr (host, parsed) ↦
        let (addresses, route) =
          and_split _ _ (sym (evaluation-ready facts expected host parsed) ∙ h) in
        let (read, found) = and_split _ _ addresses in
        let (route_read, route) = and_split _ _ route in
        let (there, route) = and_split _ _ route in
        let (routed, sourced) = and_split _ _ route in
        let (i, entry, at, is) = finds_host-listed host facts.addresses found in
        let interface = bytes_eq_sound facts.route_interface expected.interface routed in
        (
          host,
          record {
            parsed = parsed;
            addresses_read = is_empty_sound facts.addresses_error read;
            listed = (i, entry, at, is_host-parsed expected.host_address entry host parsed is);
            route_read = is_empty_sound facts.route_error route_read;
            routed = interface;
            named = subst (λ s. is_empty s ≡ false) interface (is_unset there);
            sourced = bytes_eq_sound facts.route_source host.address sourced;
          },
        )
  ]

  complete :
      (facts : NetworkFacts) (expected : NetworkExpectation)
      → (host : ParsedAddress) × IsReady facts expected host
      → (evaluate_network facts expected).ready ≡ true
  complete facts expected (host, r) =
      let (i, entry, at, parsed) = r.listed in
      evaluation-ready facts expected host r.parsed
      ∙ and_join _ _
          (and_join _ _ (ap is_empty r.addresses_read)
            (listed-finds_host host facts.addresses i entry at (parsed-is_host entry host parsed)))
          (and_join _ _ (ap is_empty r.route_read) (
            and_join _ _ (ap not (ap is_empty r.routed ∙ r.named)) (
              and_join _ _
                (subst (λ s. bytes_eq s expected.interface ≡ true) (sym r.routed)
                  (bytes_eq_refl expected.interface))
                (subst (λ s. bytes_eq s host.address ≡ true) (sym r.sourced)
                  (bytes_eq_refl host.address)))))

  has_message :
      (facts : NetworkFacts) (expected : NetworkExpectation)
      → is_empty (evaluate_network facts expected).message ≡ false
  unfolding evaluate_network
  has_message facts expected =
      match_cases (λ (d : NetworkDecision). is_empty d.message ≡ false)
        (parse_address expected.host_address) _ _ (λ _. refl) (λ host _. decide-message expected _)

  -- The preflight is ready exactly when the expected host address can be parsed; the addresses were
  -- read and one of them parses to the same address, with the same prefix or both without; the route
  -- was read, goes out on the expected interface, which is not empty, and from that address. Whether
  -- it is ready or not, the decision has a message.
  pub evaluate_network_iff :
      (facts : NetworkFacts) (expected : NetworkExpectation)
      → (((evaluate_network facts expected).ready ≡ true)
          ↔ ((host : ParsedAddress) × IsReady facts expected host))
        × (is_empty (evaluate_network facts expected).message ≡ false)
  evaluate_network_iff facts expected =
      ((sound facts expected, complete facts expected), has_message facts expected)
