-- ===== src/Samples/Parameters.antt =====
-- utils.py: a boot by virtual media. The world is the number of calls.
use test_frerfhrebfd.Common.{
  ℕ, suc, false, [], ◌∷◌, str_eq, contains, text_before, text_after, join_path, if◌then◌else◌, ◌≡◌,
  refl, arith,
}
use test_frerfhrebfd.Errors.Hierarchy.{ErrorClass}
use test_frerfhrebfd.Errors.Build.{foreign_error}
use test_frerfhrebfd.Exec.{ok, err, Exec}
use test_frerfhrebfd.Params.{Media, Cache, is_empty, get_agent_params}
use test_frerfhrebfd.Params.Parse.{Params, read_params}
use test_frerfhrebfd.Params.RoundTrip.{show_params, read_params-show_params}
use test_frerfhrebfd.Params.Cached.{Origin, get_agent_params-Cached}

abbrev options : Params
options = ("ipa-debug", "1") ∷ ("root", "UUID=ab") ∷ ("quiet", "") ∷ []

read_params-show_params_example : read_params (show_params options) ≡ options
read_params-show_params_example = read_params-show_params options (ground arith) (ground arith)

abbrev answer : {A : Type 0} → A → Exec ℕ A
answer a s = (ok a, suc s)

abbrev media : Media ℕ
media = record {
  read = λ path s. (
    if str_eq path "/proc/cmdline"
        then ok "boot_method=vmedia nofb a=1"
        else if str_eq path "/tmp/m/parameters.txt"
        then ok "a=2\nb=3\n"
        else if str_eq path "/sys/class/block/sr0/device/model"
        then ok "Virtual Media  "
        else err (foreign_error ErrorClass.os_error path),
    suc s,
  );
  exists = λ path s. false;
  device_models =
      λ s. "/sys/class/block/sda/device/model" ∷ "/sys/class/block/sr0/device/model" ∷ [];
  mkdtemp = answer "/tmp/m";
  execute = λ cmd. answer "";
  rmtree = λ path. answer tt;
}

abbrev found : Params
found = ("boot_method", "vmedia") ∷ ("a", "2") ∷ ("b", "3") ∷ []

abbrev before : Cache ℕ
before = record { agent_params_cached = []; world = 0 }

abbrev after : Cache ℕ
after = record { agent_params_cached = found; world = 8 }

params_run : get_agent_params media before ≡ (ok found, after)
unfolding get_agent_params text_after text_before contains join_path
params_run = refl

get_agent_params-Cached_example :
    Origin media before found after
    × (after.agent_params_cached ≡ found)
    × (is_empty found ≡ false → get_agent_params media after ≡ (ok found, after))
get_agent_params-Cached_example = get_agent_params-Cached media before after found params_run
