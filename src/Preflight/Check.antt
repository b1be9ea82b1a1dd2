-- ===== src/Preflight/Check.antt =====
-- What it means that `LinuxNetworkPreflight::check` is ready: the commands and their outputs.
use hypertron_sw01_ros2_brid.Prelude.{
  ℕ, ◌≡◌, refl, sym, ap, ◌∙◌, Bool, true, false, not, [], some, arith, get_elem?, if_cases,
  match_cases,
}
use hypertron_sw01_ros2_brid.Prelude.Text.{Bytes}
use hypertron_sw01_ros2_brid.Preflight.{
  AddressLib, ParsedAddress, NetworkFacts, no_facts, NetworkExpectation, parse_address, Run,
  is_zero, CommandRunner, addr_command, route_command, parse_ip_addr_output,
  parse_ip_route_get_output, take_addresses, take_route, check,
}
use hypertron_sw01_ros2_brid.Preflight.Ready.{evaluate_network_iff}

is_set : {b : Bool} → not b ≡ false → b ≡ true
is_set {b} h = ground arith

module _ ⦃lib : AddressLib⦄ where
  take_addresses-read :
      (r : Run) (facts : NetworkFacts)
      → (take_addresses r facts).addresses_error ≡ []
      → (is_zero r.status ≡ true)
        × ((take_addresses r facts).addresses ≡ (parse_ip_addr_output r.output).1)
  unfolding take_addresses
  take_addresses-read r facts h =
      if_cases
        (λ (f : NetworkFacts).
          f.addresses_error ≡ []
          → (is_zero r.status ≡ true) × (f.addresses ≡ (parse_ip_addr_output r.output).1))
        (not (is_zero r.status)) _ _ (λ _ h. cc) (λ zero_status h. (is_set zero_status, refl)) h

  take_route-keeps :
      (r : Run) (robot : Bytes) (facts : NetworkFacts)
      → ((take_route r robot facts).addresses ≡ facts.addresses)
        × ((take_route r robot facts).addresses_error ≡ facts.addresses_error)
  unfolding take_route
  take_route-keeps r robot facts =
      if_cases
        (λ (f : NetworkFacts).
          (f.addresses ≡ facts.addresses) × (f.addresses_error ≡ facts.addresses_error))
        (not (is_zero r.status)) _ _ (λ _. (refl, refl))
        (λ _.
          match_cases
            (λ (f : NetworkFacts).
              (f.addresses ≡ facts.addresses) × (f.addresses_error ≡ facts.addresses_error))
            (parse_ip_route_get_output r.output) _ _ (λ _. (refl, refl)) (λ route _. (refl, refl)))

  take_route-read :
      (r : Run) (robot : Bytes) (facts : NetworkFacts)
      → (take_route r robot facts).route_error ≡ []
      → (is_zero r.status ≡ true)
        × (parse_ip_route_get_output r.output
            ≡ some (
              (take_route r robot facts).route_interface,
              (take_route r robot facts).route_source,
            ))
  unfolding take_route
  take_route-read r robot facts h =
      if_cases
        (λ (f : NetworkFacts).
          f.route_error ≡ []
          → (is_zero r.status ≡ true)
            × (parse_ip_route_get_output r.output ≡ some (f.route_interface, f.route_source)))
        (not (is_zero r.status)) _ _ (λ _ h. cc)
        (λ zero_status.
          match_cases
            (λ (f : NetworkFacts).
              f.route_error ≡ []
              → (is_zero r.status ≡ true)
                × (parse_ip_route_get_output r.output ≡ some (f.route_interface, f.route_source)))
            (parse_ip_route_get_output r.output) _ _ (λ _ h. cc)
            (λ route e h. (is_set zero_status, e)))
        h

  -- What the two commands showed.
  pub record Showed (runner : CommandRunner) (expected : NetworkExpectation) (host : ParsedAddress)
      : Type 0 where
    pub parsed : parse_address expected.host_address ≡ some host
    pub addresses_exit : is_zero (runner addr_command).status ≡ true
    pub listed :
        (i : ℕ) × (entry : Bytes) × (get_elem?
            (parse_ip_addr_output (runner addr_command).output).1
            i
          ≡ some entry)
        × (parse_address entry ≡ some host)
    pub route_exit : is_zero (runner (route_command expected.robot_address)).status ≡ true
    pub routed :
        parse_ip_route_get_output (runner (route_command expected.robot_address)).output
        ≡ some (expected.interface, host.address)

  -- If the check is ready, then both commands exited with status 0; the first one's output shows the
  -- expected host address, with the same prefix or both without; and the second one's output, for the
  -- expected robot address, shows the expected interface and that address as the route's source.
  pub check-Showed :
      (runner : CommandRunner) (expected : NetworkExpectation)
      → (check runner expected).ready ≡ true
      → (host : ParsedAddress) × Showed runner expected host
  unfolding check
  check-Showed runner expected h =
      let a = runner addr_command in
      let b = runner (route_command expected.robot_address) in
      let facts : NetworkFacts = take_addresses a no_facts in
      let (host, ready) =
        (evaluate_network_iff (take_route b expected.robot_address facts) expected).0.0 h in
      let (kept, kept_error) = take_route-keeps b expected.robot_address facts in
      let (exit, addresses) =
        take_addresses-read a no_facts (sym kept_error ∙ ready.addresses_read) in
      let (route_exit, route) = take_route-read b expected.robot_address facts ready.route_read in
      let (i, entry, at, parsed) = ready.listed in
      (
        host,
        record {
          parsed = ready.parsed;
          addresses_exit = exit;
          listed = (i, entry, ap (λ xs. get_elem? xs i) (sym addresses ∙ sym kept) ∙ at, parsed);
          route_exit = route_exit;
          routed = route ∙ (λ k. some (ready.routed k, ready.sourced k));
        },
      )
