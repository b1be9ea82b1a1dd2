-- ===== src/Tests/PreflightRuns.antt =====
-- The preflight at concrete outputs of `ip`. The library's number parser is one that reads digits, and
-- its test of addresses one that wants digits and points.
use hypertron_sw01_ros2_brid.Prelude.{
  ℕ, ◌+◌, ◌-◌, ◌*◌, ◌≡◌, ◌↔◌, refl, Bool, true, false, ◌&&◌, ◌||◌, not, [], ◌∷◌, none, some, length,
  leb, ◌==◌, if◌then◌else◌, arith,
}
use hypertron_sw01_ros2_brid.Prelude.Int.{ℤ, pos}
use hypertron_sw01_ros2_brid.Prelude.Text.{Bytes, codes, is_empty}
use hypertron_sw01_ros2_brid.Preflight.Texts.{split_slash, lines, words_after, tokens}
use hypertron_sw01_ros2_brid.Preflight.{
  AddressLib, ParsedAddress, NetworkFacts, NetworkExpectation, CommandRunner, join_failures,
  parse_prefix, check_address, parse_address, finds_host, address_problem, route_problem, decide,
  evaluate_network, inet_entries, all_entries, parse_ip_addr_output, route_words, first_route,
  parse_ip_route_get_output, take_addresses, take_route, check,
}
use hypertron_sw01_ros2_brid.Preflight.Ready.{IsReady, evaluate_network_iff}
use hypertron_sw01_ros2_brid.Preflight.Tokens.{
  AddrLine, printed, cidrs, print_lines, parse_ip_addr_output-print,
}
use hypertron_sw01_ros2_brid.Preflight.Check.{Showed, check-Showed}

abbrev is_digit : ℕ → Bool
is_digit c = leb 48 c && leb c 57

abbrev digits : ℤ × ℕ → Bytes → ℤ × ℕ
digits r [] = r
digits (pos v, n) (c ∷ cs) =
    let on = digits (pos (v * 10 + (c - 48)), n + 1) cs in if is_digit c then on else (pos v, n)
digits r (c ∷ cs) = r

abbrev dotted : Bytes → Bool
dotted [] = true
dotted (c ∷ cs) = (is_digit c || c == 46) && dotted cs

instance abbrev sample_lib : AddressLib
sample_lib = record {
  stoi = λ text. if is_empty text then none else some (digits (pos 0, 0) text);
  is_ipv4 = dotted;
  to_string = λ n. codes "1";
}

abbrev expected : NetworkExpectation
expected = record {
  interface = codes "eno1";
  host_address = codes "10.18.0.200/24";
  robot_address = codes "10.18.0.100";
}

abbrev runner : CommandRunner
runner command = record {
  status = pos 0;
  output =
      if length command == 5
      then codes "2: eno1    inet 10.18.0.200/24 brd 10.18.0.255\n"
      else codes "10.18.0.100 dev eno1 src 10.18.0.200 uid 0\n";
  error = [];
}

abbrev facts : NetworkFacts
facts = record {
  addresses = codes "127.0.0.1/8" ∷ codes "10.18.0.200/24" ∷ [];
  route_interface = codes "eno1";
  route_source = codes "10.18.0.200";
  addresses_error = [];
  route_error = [];
}

evaluate_network_iff_example :
    (((evaluate_network facts expected).ready ≡ true)
      ↔ ((host : ParsedAddress) × IsReady facts expected host))
    × (is_empty (evaluate_network facts expected).message ≡ false)
evaluate_network_iff_example = evaluate_network_iff facts expected

facts-ready : (evaluate_network facts expected).ready ≡ true
unfolding evaluate_network parse_address split_slash parse_prefix check_address decide join_failures
    address_problem route_problem finds_host
facts-ready = refl

check-ready : (check runner expected).ready ≡ true
unfolding check take_addresses take_route parse_ip_addr_output parse_ip_route_get_output all_entries
    inet_entries first_route route_words lines tokens words_after evaluate_network parse_address
    split_slash parse_prefix check_address decide join_failures address_problem route_problem
    finds_host
check-ready = refl

check-Showed_example : (host : ParsedAddress) × Showed runner expected host
check-Showed_example = check-Showed runner expected check-ready

abbrev line : AddrLine
line = record {
  before = codes "2:" ∷ codes "eno1" ∷ [];
  cidr = codes "10.18.0.200/24";
  after = codes "brd" ∷ codes "10.18.0.255" ∷ [];
}

parse_ip_addr_output-print_example :
    parse_ip_addr_output (print_lines (printed (line ∷ [])))
    ≡ (not (length (cidrs (line ∷ [])) == 0), cidrs (line ∷ []))
parse_ip_addr_output-print_example = parse_ip_addr_output-print (line ∷ []) (ground arith)
