-- ===== src/Kubernetes.antt =====
-- K8sService of api/gem_api/services/k8s_client.py: running kubectl, and what its failures become.
pub mod Models
pub mod Actions
pub mod Failures
pub mod Values
pub mod Lists
pub mod Status
pub mod Syncs
use gem_gdc_emulation_enviro.Prelude.{
  false, Text, codes, ℕ, suc, ◌==◌, List, [], ◌∷◌, ◌++◌, Option, none, some, Bool, not, ◌&&◌,
  is_empty, is_some, if◌then◌else◌,
}
use gem_gdc_emulation_enviro.Prelude.Strings.{strip, lower, contains, decimal}
use gem_gdc_emulation_enviro.Exceptions.{
  Outcome, returned, raised, http, status_404_not_found, status_409_conflict,
  status_502_bad_gateway, status_503_service_unavailable, ◌&◌,
}
use gem_gdc_emulation_enviro.Runner.Decoding.{decode}

-- A return code: that of an exit, or minus the number of a signal.
pub data ℤ : Type 0 where
  pos negsuc : ℕ → ℤ

abbrev pub is_zero : ℤ → Bool
is_zero (pos n) = n == 0
is_zero (negsuc n) = false

abbrev pub shown : ℤ → Text
shown (pos n) = decimal n
shown (negsuc n) = codes "-" & decimal (suc n)

-- A command line, and what is written to its standard input.
pub record Call : Type 0 where
  pub argv : List Text
  pub stdin : Option Text

-- What communicate_or_kill and create_subprocess_exec report: the end of the process with its output,
-- a timeout, or an OSError or ValueError with its str().
pub data Execution : Type 0 where
  completed : ℤ → List ℕ → List ℕ → Execution
  timed_out : Execution
  failed : Text → Execution

-- The host of the API: its files and variables, and what becomes of a call of kubectl.
pub record Host : Type 0 where
  pub has_kubectl : Bool
  pub is_file : Text → Bool
  pub kubeconfig : Option Text
  pub home : Text
  pub run : Call → Execution

abbrev pub missing_kubectl : Text
missing_kubectl = codes "kubectl binary not found"

-- `for candidate in candidates: if candidate and Path(candidate).is_file()`
unfoldable pub first_file : (Text → Bool) → List Text → Option Text
first_file is_file [] = none
first_file is_file (c ∷ candidates) =
    let later = first_file is_file candidates in
    if not (is_empty c) && is_file c then some c else later

-- A variable that is not set stands as an empty text, which is passed over as None is.
abbrev text_or_none : Option Text → Text
text_or_none none = []
text_or_none (some s) = s

unfoldable pub find_kubeconfig : Host → Text → Option Text
unfolding first_file
find_kubeconfig host cluster_name = first_file host.is_file (
    text_or_none host.kubeconfig
    ∷ (host.home & codes "/.kube/" & cluster_name & codes "-kubeconfig")
    ∷ (codes "/tmp/" & cluster_name & codes "-kubeconfig")
    ∷ codes "/home/gem/.kube/config"
    ∷ (host.home & codes "/.kube/config")
    ∷ [])

abbrev kubeconfig_args : Option Text → List Text
kubeconfig_args none = []
kubeconfig_args (some path) = (codes "--kubeconfig=" & path) ∷ []

-- The return code, the output and the error output of a command.
pub record Result : Type 0 where
  pub rc : ℤ
  pub stdout : Text
  pub stderr : Text

abbrev pub failure : Text → Result
failure message = record { rc = negsuc 0; stdout = []; stderr = message }

unfoldable pub result_of : Execution → Result
unfolding decode
result_of (completed rc out errors) = record {
  rc = rc;
  stdout = decode out;
  stderr = decode errors;
}
result_of timed_out = failure (codes "kubectl timed out after 6.0s")
result_of (failed e) = failure e

unfoldable pub kubectl_call : Host → Text → List Text → Option Text → Call
unfolding find_kubeconfig
kubectl_call host cluster_name args input_data = record {
  argv = codes "kubectl" ∷ (kubeconfig_args (find_kubeconfig host cluster_name) ++ args);
  stdin = input_data;
}

-- _exec_kubectl, with the calls that it makes.
unfoldable pub exec_kubectl : Host → Text → List Text → Option Text → Result × List Call
unfolding result_of kubectl_call
exec_kubectl host cluster_name args input_data =
    let call = kubectl_call host cluster_name args input_data in
    if host.has_kubectl
    then (result_of (host.run call), call ∷ [])
    else (failure missing_kubectl, [])

-- What a failure means to the caller: the action, and the details of a 404 and of a 409 where they can
-- occur.
pub record Explanation : Type 0 where
  pub action : Text
  pub not_found : Option Text
  pub conflict : Option Text

abbrev pub gateway_detail : ℤ → Text → Text → Text
gateway_detail rc action err =
    codes "Failed to "
    & action
    & codes ": "
    & (if is_empty err then codes "kubectl exited with code " & shown rc else err)

abbrev pub detail_if : Bool → ℕ → Option Text → Outcome (Unit {0}) → Outcome (Unit {0})
detail_if holds status none next = next
detail_if holds status (some detail) next =
    if not (is_empty detail) && holds then raised (http status detail) else next

-- _raise_for_kubectl
unfoldable pub raise_for_kubectl : ℤ → Text → Explanation → Outcome (Unit {0})
unfolding strip lower contains
raise_for_kubectl rc stderr x =
    let err = strip stderr in
    if is_zero rc
    then returned tt
    else if contains err missing_kubectl
    then raised (
        http status_503_service_unavailable
          (codes "Cannot " & x.action & codes ": kubectl is not available in the API environment."))
    else detail_if (contains (lower err) (codes "not found")) status_404_not_found x.not_found (
        detail_if (contains (lower err) (codes "already exists")) status_409_conflict x.conflict
          (raised (http status_502_bad_gateway (gateway_detail rc x.action err))))
