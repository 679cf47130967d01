-- ===== src/Kubernetes/Failures.antt =====
-- The failures of kubectl, and what the operations make of them.
use gem_gdc_emulation_enviro.Kubernetes.Models.{PodCreateRequest}
use gem_gdc_emulation_enviro.Kubernetes.Actions.{
  Response, Action, post_vm, post_power, remove_vm, post_pod, remove_pod, call_kubectl, handle,
  deploy_vm, power_vm, delete_vm, create_pod, delete_pod,
}
use gem_gdc_emulation_enviro.Kubernetes.{
  suc, pos, failed, completed, timed_out, Execution, exec_kubectl, kubectl_call, failure, result_of,
  Result, Call, Host, negsuc, ℤ, is_zero, Explanation, missing_kubectl, detail_if,
  raise_for_kubectl,
}
use gem_gdc_emulation_enviro.Prelude.{
  arith, zero, sym, subst, List, [], ◌∷◌, true, ◌⊎◌, Text, ℕ, ◌≡◌, refl, inl, inr, Bool-cases,
  Option, none, some, false, Bool, not, ◌&&◌, is_empty,
}
use gem_gdc_emulation_enviro.Prelude.Strings.{strip, contains}
use gem_gdc_emulation_enviro.Exceptions.{returned, ◌>>=◌, Outcome, raised, http}

-- The status codes that a failure of kubectl may become.
pub data IsGatewayFailure : ℕ → Type 0 where
  unavailable : IsGatewayFailure 503
  not_found : IsGatewayFailure 404
  conflict : IsGatewayFailure 409
  bad_gateway : IsGatewayFailure 502

-- How a translation ends.
pub record Failed {ℓ} (A : Type ℓ) (o : Outcome A) : Type ℓ where
  pub status : ℕ
  pub detail : Text
  pub is_raised : o ≡ raised (http status detail)
  pub known : IsGatewayFailure status

detail_if-Failed :
    (holds : Bool) (status : ℕ) (d : Option Text) (next : Outcome (Unit {0}))
    → IsGatewayFailure status
    → Failed (Unit {0}) next
    → Failed (Unit {0}) (detail_if holds status d next)
detail_if-Failed holds status none next k h = h
detail_if-Failed holds status (some d) next k h = elim (Bool-cases (not (is_empty d) && holds)) [
  | inl e ↦ rw e record { status = status; detail = d; is_raised = refl; known = k }
  | inr e ↦ rw e h
]

-- A return code other than 0 is always an error: 503, 404, 409 or 502.
pub raise_for_kubectl-Failed :
    (rc : ℤ) (stderr : Text) (x : Explanation)
    → is_zero rc ≡ false
    → Failed (Unit {0}) (raise_for_kubectl rc stderr x)
unfolding raise_for_kubectl
raise_for_kubectl-Failed rc stderr x h =
    elim (Bool-cases (contains (strip stderr) missing_kubectl)) [
      | inl e ↦ rw (h, e) record { status = _; detail = _; is_raised = refl; known = unavailable }
      | inr e ↦
          rw (h, e)
            (detail_if-Failed _ 404 x.not_found _ not_found (
              detail_if-Failed _ 409 x.conflict _ conflict
                record { status = _; detail = _; is_raised = refl; known = bad_gateway }))
    ]

-- A call of kubectl that exited with 0.
pub data Exited : Execution → Type 0 where
  exited_zero : (out errors : List ℕ) → Exited (completed (pos 0) out errors)

-- A call that timed out, that could not be made, or that ended with another code or by a signal.
pub data Failing : Execution → Type 0 where
  timeout : Failing timed_out
  not_run : (message : Text) → Failing (failed message)
  exited_other : (n : ℕ) (out errors : List ℕ) → Failing (completed (pos (suc n)) out errors)
  killed : (n : ℕ) (out errors : List ℕ) → Failing (completed (negsuc n) out errors)

pub Execution-cases :
    (x : Execution)
    → (Exited x × (is_zero (result_of x).rc ≡ true))
      ⊎ (Failing x × (is_zero (result_of x).rc ≡ false))
unfolding result_of
Execution-cases (completed (pos zero) out errors) = inl (exited_zero out errors, refl)
Execution-cases (completed (pos (suc n)) out errors) = inr (exited_other n out errors, ground arith)
Execution-cases (completed (negsuc n) out errors) = inr (killed n out errors, refl)
Execution-cases timed_out = inr (timeout, refl)
Execution-cases (failed message) = inr (not_run message, refl)

-- A response that is due to a call of kubectl that exited with 0.
pub record Succeeded (host : Host) (p : Outcome Response × List Call) : Type 0 where
  pub call : Call
  pub response : Response
  pub present : host.has_kubectl ≡ true
  pub calls : p.1 ≡ call ∷ []
  pub exit : Exited (host.run call)
  pub is_returned : p.0 ≡ returned response

-- An error, where kubectl is missing and is not called, or where its one call has failed.
pub record Refused (host : Host) (p : Outcome Response × List Call) : Type 0 where
  pub failed : Failed Response p.0
  pub cause :
      ((host.has_kubectl ≡ false) × (p.1 ≡ []))
      ⊎ ((call : Call) × (p.1 ≡ call ∷ []) × Failing (host.run call))

behind :
    (o : Outcome (Unit {0})) (r : Response)
    → Failed (Unit {0}) o
    → Failed Response (o >>= λ _. returned r)
behind o r h = record {
  status = h.status;
  detail = h.detail;
  is_raised = rw h.is_raised refl;
  known = h.known;
}

abbrev pub Cases : Host → Outcome Response × List Call → Type 0
Cases host p = Succeeded host p ⊎ Refused host p

-- What an operation makes of the result of kubectl.
answer : Explanation → Response → Result × List Call → Outcome Response × List Call
answer x r (result, calls) =
    (raise_for_kubectl result.rc result.stderr x >>= λ _. returned r, calls)

module _ (host : Host) (x : Explanation) (r : Response) where
  answer-missing :
      host.has_kubectl ≡ false → Refused host (answer x r (failure missing_kubectl, []))
  unfolding answer
  answer-missing absent = record {
    failed = behind _ r (raise_for_kubectl-Failed (negsuc 0) missing_kubectl x refl);
    cause = inl (absent, refl);
  }

  answer-Cases :
      (call : Call)
      → host.has_kubectl ≡ true
      → Cases host (answer x r (result_of (host.run call), call ∷ []))
  unfolding answer raise_for_kubectl
  answer-Cases call present =
      let result = result_of (host.run call) in
      elim (Execution-cases (host.run call)) [
        | inl (exit, ok) ↦ inl record {
          call = call;
          response = r;
          present = present;
          calls = refl;
          exit = exit;
          is_returned = rw (ok, raise_for_kubectl) refl;
        }
        | inr (failing, other) ↦ inr record {
          failed = behind _ r (raise_for_kubectl-Failed result.rc result.stderr x other);
          cause = inr (call, refl, failing);
        }
      ]

module _ (host : Host) (cluster_name : Text) where
  called :
      (args : List Text) (input_data : Option Text)
      → host.has_kubectl ≡ true
      → exec_kubectl host cluster_name args input_data ≡ (
          let call = kubectl_call host cluster_name args input_data in
          (result_of (host.run call), call ∷ []))
  unfolding exec_kubectl
  called args input_data e = rw (e, exec_kubectl) refl

  not_called :
      (args : List Text) (input_data : Option Text)
      → host.has_kubectl ≡ false
      → exec_kubectl host cluster_name args input_data ≡ (failure missing_kubectl, [])
  unfolding exec_kubectl
  not_called args input_data e = rw (e, exec_kubectl) refl

  call_kubectl-Cases :
      (args : List Text) (input_data : Option Text) (x : Explanation) (r : Response)
      → Cases host (call_kubectl host cluster_name args input_data x r)
  unfolding call_kubectl answer
  call_kubectl-Cases args input_data x r =
      let call = kubectl_call host cluster_name args input_data in
      elim (Bool-cases host.has_kubectl) [
        | inl e ↦
            subst (λ t. Cases host (answer x r t)) (sym (called args input_data e))
              (answer-Cases host x r call e)
        | inr e ↦
            subst (λ t. Cases host (answer x r t)) (sym (not_called args input_data e))
              (inr (answer-missing host x r e))
      ]

  -- A request that changes a cluster succeeds only if kubectl was called once and exited with 0. In
  -- every other case it raises 503, 404, 409 or 502: kubectl is missing and nothing is called, or its
  -- one call timed out, failed or exited with another code.
  pub handle-Cases : (a : Action) → Cases host (handle host cluster_name a)
  unfolding handle deploy_vm power_vm delete_vm create_pod delete_pod
  handle-Cases (post_vm request) = search call_kubectl-Cases
  handle-Cases (post_power vm_name running namespace) = search call_kubectl-Cases
  handle-Cases (remove_vm vm_name namespace) = search call_kubectl-Cases
  handle-Cases (post_pod request) = search call_kubectl-Cases
  handle-Cases (remove_pod pod_name namespace grace) = search call_kubectl-Cases

  -- Creating a pod takes only the name, the namespace and the image from its request: the command, the
  -- port, the environment, the labels, the annotations and the manifest change neither the call nor the
  -- response.
  pub create_pod-ignores :
      (r s : PodCreateRequest)
      → r.name ≡ s.name
      → r.namespace ≡ s.namespace
      → r.image ≡ s.image
      → create_pod host cluster_name r ≡ create_pod host cluster_name s
  unfolding create_pod
  create_pod-ignores r s hn hs hi = rw (hn, hs, hi) refl
