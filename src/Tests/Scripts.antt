-- ===== src/Tests/Scripts.antt =====
-- Runs of sysctl.py and cpudetect.py.
use linuxtools.Base.{
  ◌≡◌, refl, true, List, [], ◌∷◌, Option, none, some, if◌then◌else◌, ok, raise, index_error, All,
  Bool-cases, inl, inr, map,
}
use linuxtools.Str.{
  Text, codes, eqb, splitlines, break_lines, crlf, is_break, split_space, starts_with, is_space,
  strip, lstrip, rstrip, keep, split,
}
use linuxtools.Str.Number.{int, signed, read_digits, pos}
use linuxtools.Str.Lines.{unlines}
use linuxtools.Dict.{Dict, lookup, NodupKeys}
use linuxtools.Sysctl.{Host, Ran, finished, run_command, checked, log_error, get_sysctl_params}
use linuxtools.Sysctl.Params.{
  IsParam, lines_of, last_value, get_sysctl_params-unlines, lookup-get_sysctl_params,
}
use linuxtools.Sysctl.Query.{read_nameservers}
use linuxtools.Sysctl.Collect.{SystemInfo, Files, main}
use linuxtools.Sysctl.Outcome.{any_bare, servers, read_nameservers_lem, raised_by, main-raised}
use linuxtools.Cpu.{field, item, info, get_cpu_info}
use linuxtools.Cpu.Laws.{
  Line, sockets, cores, other, render, IsLine, last_sockets, last_cores, get_cpu_info-render,
  any_malformed,
}

abbrev params : Dict Text
params = (codes "kernel.ostype", codes "Linux") ∷ (codes "vm.swappiness", codes "60") ∷ []

abbrev resolv : Text
resolv = codes "nameserver 10.0.0.2\nnameserver\n"

abbrev outputs : Text → Ran
outputs command =
    if eqb command (codes "sysctl -a")
    then finished 0 (unlines (lines_of params))
    else if eqb command (codes "cat /etc/resolv.conf")
    then finished 0 resolv
    else finished 1 []

abbrev host : Host
host = record {
  run = outputs;
  exists = λ path. eqb path (codes "/etc/resolv.conf");
  hostname = ok (codes "box");
  fqdn = ok (codes "box.local");
  now = codes "2024-01-01";
}

params-IsParam : All IsParam params
unfolding is_space is_break
params-IsParam = (
  record {
    key_lacks = refl;
    key_stripped = record { front = refl; back = refl };
    value_stripped = record { front = refl; back = refl };
    key_line = refl;
    value_line = refl;
  },
  (
    record {
      key_lacks = refl;
      key_stripped = record { front = refl; back = refl };
      value_stripped = record { front = refl; back = refl };
      key_line = refl;
      value_line = refl;
    },
    tt,
  ),
)

params-NodupKeys : NodupKeys params
unfolding lookup eqb
params-NodupKeys = (refl, (refl, tt))

sysctl_ran : host.run (codes "sysctl -a") ≡ finished 0 (unlines (lines_of params))
unfolding eqb
sysctl_ran = refl

get_sysctl_params-unlines_example : get_sysctl_params host ≡ ok params
get_sysctl_params-unlines_example =
    get_sysctl_params-unlines host params sysctl_ran params-IsParam params-NodupKeys

lookup-get_sysctl_params_example :
    (d : Dict Text) × (get_sysctl_params host ≡ ok d)
    × NodupKeys d
    × (lookup (codes "vm.swappiness") d
        ≡ last_value (codes "vm.swappiness") none (splitlines (unlines (lines_of params))))
lookup-get_sysctl_params_example =
    lookup-get_sysctl_params host (unlines (lines_of params)) (codes "vm.swappiness") sysctl_ran

read_nameservers_lem_example :
    read_nameservers (codes "nameserver 10.0.0.2" ∷ codes "search lan" ∷ []) [] ≡ (
      if any_bare (codes "nameserver 10.0.0.2" ∷ codes "search lan" ∷ [])
      then raise index_error
      else ok (servers (codes "nameserver 10.0.0.2" ∷ codes "search lan" ∷ [])))
read_nameservers_lem_example =
    read_nameservers_lem (codes "nameserver 10.0.0.2" ∷ codes "search lan" ∷ []) []

checked_outputs : (command : Text) → (o : Option Text) × (run_command host command ≡ ok o)
unfolding run_command checked log_error
checked_outputs command = elim (Bool-cases (eqb command (codes "sysctl -a"))) [
  | inl a ↦ (some (unlines (lines_of params)), rw (a, run_command))
  | inr a ↦ elim (Bool-cases (eqb command (codes "cat /etc/resolv.conf"))) [
    | inl b ↦ (some resolv, rw (a, b, run_command))
    | inr b ↦ (none, rw (a, b, run_command))
  ]
]

abbrev disk : Files SystemInfo
disk = record { write = λ name contents. ok tt }

main-raised_example : raised_by (main host disk (codes "20240101")) ≡ some index_error
unfolding any_bare splitlines break_lines crlf is_break split_space starts_with run_command checked
    eqb is_space
main-raised_example = main-raised host checked_outputs disk (codes "20240101")

abbrev lscpu : List Line
lscpu = other (codes "CPU(s): 8") ∷ cores 2 4 ∷ sockets 14 2 ∷ []

lscpu-IsLine : All IsLine lscpu
unfolding starts_with is_break
lscpu-IsLine = ((refl, refl, refl), (tt, (tt, tt)))

get_cpu_info-render_example :
    get_cpu_info (ok (unlines (map render lscpu)))
    ≡ info (record { sockets = pos 2; cores_per_socket = pos 4 })
unfolding last_sockets last_cores
get_cpu_info-render_example = get_cpu_info-render lscpu lscpu-IsLine

abbrev arm : Text
arm = codes "Socket(s): -\n"

arm-any_malformed : any_malformed (splitlines arm) ≡ true
unfolding any_malformed splitlines break_lines crlf is_break starts_with field item split int signed
    read_digits strip lstrip rstrip keep is_space
arm-any_malformed = refl
