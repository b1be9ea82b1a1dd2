-- ===== src/Preflight.antt =====
-- src/network_preflight.cpp with include/hypertron_ros2_bridge/network_preflight.hpp: the evaluation of
-- network facts, the parsers of the output of `ip`, and `LinuxNetworkPreflight::check`.
pub mod Texts
pub mod Ready
pub mod Tokens
pub mod Check
use hypertron_sw01_ros2_brid.Prelude.{
  ℕ, Bool, true, false, ◌&&◌, ◌||◌, not, List, [], ◌∷◌, ◌++◌, Option, none, some, ltb, ◌==◌,
  if◌then◌else◌, length, ◌>>=◌, match_option,
}
use hypertron_sw01_ros2_brid.Prelude.Int.{ℤ, pos, negsuc}
use hypertron_sw01_ros2_brid.Prelude.Text.{Bytes, codes, bytes_eq, is_empty}
use hypertron_sw01_ros2_brid.Preflight.Texts.{split_slash, lines, tokens}

-- What the source calls of the standard library and of the system. `stoi` gives the number and how
-- many characters it took, or throws; `is_ipv4` says whether `inet_pton` takes the text.
pub record AddressLib : Type 0 where
  pub stoi : Bytes → Option (ℤ × ℕ)
  pub is_ipv4 : Bytes → Bool
  pub to_string : ℤ → Bytes

pub record ParsedAddress : Type 0 where
  pub address : Bytes
  pub has_prefix : Bool
  pub prefix : ℕ

pub record NetworkFacts : Type 0 where
  pub addresses : List Bytes
  pub route_interface : Bytes
  pub route_source : Bytes
  pub addresses_error : Bytes
  pub route_error : Bytes

abbrev pub no_facts : NetworkFacts
no_facts = record {
  addresses = [];
  route_interface = [];
  route_source = [];
  addresses_error = [];
  route_error = [];
}

pub record NetworkExpectation : Type 0 where
  pub interface : Bytes
  pub host_address : Bytes
  pub robot_address : Bytes

pub record NetworkDecision : Type 0 where
  pub ready : Bool
  pub message : Bytes

abbrev pub quoted : Bytes → Bytes
quoted s = codes "'" ++ (s ++ codes "'")

unfoldable pub join_failures : Bytes → Bytes → Bytes
join_failures first second =
    if is_empty first
    then second
    else if is_empty second
    then first
    else first ++ (codes "; " ++ second)

abbrev pub same_address : ParsedAddress → ParsedAddress → Bool
same_address host parsed =
    bytes_eq parsed.address host.address
    && ((if parsed.has_prefix then host.has_prefix else not host.has_prefix)
        && (not host.has_prefix || parsed.prefix == host.prefix))

module _ ⦃lib : AddressLib⦄ where
  -- The number behind the slash.
  abbrev pub prefix_of : Bytes → ℤ × ℕ → Option ℕ
  prefix_of text (negsuc n, consumed) = none
  prefix_of text (pos n, consumed) =
      if not (consumed == length text) || ltb 32 n then none else some n

  unfoldable pub parse_prefix : Bytes → Option ℕ
  parse_prefix text = if is_empty text then none else lib.stoi text >>= prefix_of text

  unfoldable pub check_address : Bytes → Bool → ℕ → Option ParsedAddress
  check_address rest has_prefix prefix =
      if is_empty rest
      then none
      else if not (lib.is_ipv4 rest)
      then none
      else some (record { address = rest; has_prefix = has_prefix; prefix = prefix })

  unfoldable pub parse_address : Bytes → Option ParsedAddress
  parse_address cidr =
      match_option (split_slash cidr).1 (check_address cidr false 0)
        (λ text. parse_prefix text >>= λ prefix. check_address (split_slash cidr).0 true prefix)

  abbrev pub is_host : ParsedAddress → Bytes → Bool
  is_host host entry = match_option (parse_address entry) false (λ parsed. same_address host parsed)

  -- The loop over the addresses, which stops at the first match.
  unfoldable pub finds_host : ParsedAddress → List Bytes → Bool
  finds_host host [] = false
  finds_host host (entry ∷ entries) = is_host host entry || finds_host host entries

  unfoldable pub address_problem : NetworkFacts → NetworkExpectation → ParsedAddress → Bytes
  address_problem facts expected host =
      if not (is_empty facts.addresses_error)
      then codes "could not read host addresses: " ++ facts.addresses_error
      else if finds_host host facts.addresses
      then []
      else codes "host address "
        ++ (quoted expected.host_address ++ codes " not found on any interface")

  unfoldable pub route_problem : NetworkFacts → NetworkExpectation → ParsedAddress → Bytes
  route_problem facts expected host =
      if not (is_empty facts.route_error)
      then codes "could not determine route to "
        ++ (quoted expected.robot_address ++ (codes ": " ++ facts.route_error))
      else if is_empty facts.route_interface
      then codes "no route to robot address " ++ quoted expected.robot_address
      else if not (bytes_eq facts.route_interface expected.interface)
      then codes "route to "
        ++ (quoted expected.robot_address
            ++ (codes " uses interface "
                ++ (quoted facts.route_interface
                    ++ (codes ", expected " ++ quoted expected.interface))))
      else if not (bytes_eq facts.route_source host.address)
      then codes "route to "
        ++ (quoted expected.robot_address
            ++ (codes " uses source address "
                ++ (quoted facts.route_source ++ (codes ", expected " ++ quoted host.address))))
      else []

  unfoldable pub decide : NetworkExpectation → Bytes → NetworkDecision
  decide expected problem =
      if is_empty problem
      then record {
        ready = true;
        message =
            codes "network preflight ok: "
            ++ (expected.host_address
                ++ (codes " on "
                    ++ (expected.interface
                        ++ (codes ", route to "
                            ++ (expected.robot_address
                                ++ (codes " via " ++ expected.interface))))));
      }
      else record { ready = false; message = problem }

  unfoldable pub evaluate_network : NetworkFacts → NetworkExpectation → NetworkDecision
  evaluate_network facts expected =
      match_option (parse_address expected.host_address)
        (record {
          ready = false;
          message =
              codes "expected host address "
              ++ (quoted expected.host_address ++ codes " is not a valid IPv4 address or CIDR");
        })
        (λ host.
          decide expected (
            join_failures (address_problem facts expected host)
              (route_problem facts expected host)))

-- The words that follow the word `inet`.
unfoldable pub inet_entries : List Bytes → List Bytes
inet_entries [] = []
inet_entries (token ∷ []) = []
inet_entries (token ∷ cidr ∷ rest) =
    let after = inet_entries rest in
    let on = inet_entries (cidr ∷ rest) in
    if bytes_eq token (codes "inet") then cidr ∷ after else on

unfoldable pub all_entries : List Bytes → List Bytes
all_entries [] = []
all_entries (line ∷ rest) = inet_entries (tokens line) ++ all_entries rest

-- The addresses, and whether there is one.
unfoldable pub parse_ip_addr_output : Bytes → Bool × List Bytes
parse_ip_addr_output output =
    let addresses = all_entries (lines output) in (not (length addresses == 0), addresses)

-- The words after the last `dev` and the last `src` of a line.
unfoldable pub route_words : Bytes × Bytes → List Bytes → Bytes × Bytes
route_words found [] = found
route_words found (token ∷ []) = found
route_words (dev, src) (token ∷ word ∷ rest) =
    let with_dev = route_words (word, src) rest in
    let with_src = route_words (dev, word) rest in
    let on = route_words (dev, src) (word ∷ rest) in
    if bytes_eq token (codes "dev")
    then with_dev
    else if bytes_eq token (codes "src")
    then with_src
    else on

-- The first line with both.
unfoldable pub first_route : List Bytes → Option (Bytes × Bytes)
first_route [] = none
first_route (line ∷ rest) =
    let (dev, src) = route_words ([], []) (tokens line) in
    let on = first_route rest in
    if not (is_empty dev) && not (is_empty src) then some (dev, src) else on

unfoldable pub parse_ip_route_get_output : Bytes → Option (Bytes × Bytes)
parse_ip_route_get_output output = first_route (lines output)

-- What running a command gives: its exit status and its two outputs.
pub record Run : Type 0 where
  pub status : ℤ
  pub output : Bytes
  pub error : Bytes

abbrev pub is_zero : ℤ → Bool
is_zero (pos n) = n == 0
is_zero (negsuc n) = false

-- A command whose arguments are given.
abbrev pub CommandRunner : Type 0
CommandRunner = List Bytes → Run

abbrev pub addr_command : List Bytes
addr_command = codes "ip" ∷ codes "-4" ∷ codes "-o" ∷ codes "addr" ∷ codes "show" ∷ []

abbrev pub route_command : Bytes → List Bytes
route_command robot =
    codes "ip" ∷ codes "-4" ∷ codes "-o" ∷ codes "route" ∷ codes "get" ∷ robot ∷ []

module _ ⦃lib : AddressLib⦄ where
  -- What follows the name of a command that failed.
  abbrev pub exit_message : Run → Bytes
  exit_message r =
      codes " exited with status "
      ++ (lib.to_string r.status ++ (if is_empty r.error then [] else codes ": " ++ r.error))

  unfoldable pub take_addresses : Run → NetworkFacts → NetworkFacts
  take_addresses r facts =
      if not (is_zero r.status)
      then record facts { addresses_error = quoted (codes "ip -4 -o addr show") ++ exit_message r }
      else let (found, addresses) = parse_ip_addr_output r.output in
        record facts {
          addresses = addresses;
          addresses_error =
              if found
              then []
              else quoted (codes "ip -4 -o addr show") ++ codes " returned no IPv4 addresses";
        }

  unfoldable pub take_route : Run → Bytes → NetworkFacts → NetworkFacts
  take_route r robot facts =
      if not (is_zero r.status)
      then record facts { route_error = quoted (codes "ip route get " ++ robot) ++ exit_message r }
      else match_option (parse_ip_route_get_output r.output)
          (record facts {
            route_error =
                quoted (codes "ip route get " ++ robot) ++ codes " produced unparseable output";
          })
          (λ route. record facts { route_interface = route.0; route_source = route.1 })

  unfoldable pub check : CommandRunner → NetworkExpectation → NetworkDecision
  check runner expected =
      let facts = take_addresses (runner addr_command) no_facts in
      evaluate_network
        (take_route (runner (route_command expected.robot_address)) expected.robot_address facts)
        expected
