-- ===== src/Laboratory/Checks.antt =====
-- adapters/registered_health_checker.py: one request to each of the fixed health addresses.
use aiops_control_lab.Base.{
  ◌≡◌, ◌≢◌, arith, ℕ, suc, ◌≤◌, ◌<◌, String, Bool, true, List, [], ◌∷◌, All, Float,
}
use aiops_control_lab.Laboratory.Probe.{is_success}

pub record HealthTarget : Type 0 where
  pub id : String
  pub asset_id : String
  pub url : String

-- What `urlopen` does: it returns, raises `HTTPError`, or raises that the host cannot be reached.
pub data Outcome : Type 0 where
  response http_error : ℕ → Outcome
  unreachable : Outcome

pub record HealthCheck : Type 0 where
  pub id : String
  pub asset_id : String
  pub healthy : Bool
  pub status_code : ℕ
  pub latency_ms : Float
  pub error : String

abbrev pub default_health_targets : List HealthTarget
default_health_targets =
    (record {
      id = "devops-nginx";
      asset_id = "docker/devops-lab/nginx";
      url = "http://devops-nginx/";
    })
    ∷ (record {
      id = "devops-api";
      asset_id = "docker/devops-lab/api";
      url = "http://devops-api:8000/health";
    })
    ∷ (record {
      id = "devops-prometheus";
      asset_id = "docker/devops-lab/prometheus";
      url = "http://devops-prometheus:9090/-/ready";
    })
    ∷ (record {
      id = "devops-grafana";
      asset_id = "docker/devops-lab/grafana";
      url = "http://devops-grafana:3000/api/health";
    })
    ∷ (record {
      id = "devops-alertmanager";
      asset_id = "docker/devops-lab/alertmanager";
      url = "http://devops-alertmanager:9093/-/ready";
    })
    ∷ []

abbrev pub status_of : Outcome → ℕ
status_of (response code) = code
status_of (http_error code) = code
status_of unreachable = 0

abbrev pub error_of : Outcome → String
error_of (response code) = ""
error_of (http_error code) = "http_error"
error_of unreachable = "unreachable"

-- `urlopen` on an address, as the n-th request, and the rounded milliseconds that it takes
module _ (open_url : ℕ → String → Outcome × Float) where
  -- `_check`
  unfoldable pub check : ℕ → HealthTarget → HealthCheck
  check n target =
      let (outcome, latency_ms) = open_url n target.url in
      record {
        id = target.id;
        asset_id = target.asset_id;
        healthy = is_success (status_of outcome);
        status_code = status_of outcome;
        latency_ms = latency_ms;
        error = error_of outcome;
      }

  -- `check_all`, from the n-th request on
  unfoldable pub check_all : ℕ → List HealthTarget → List HealthCheck
  unfolding check
  check_all n [] = []
  check_all n (target ∷ targets) = check n target ∷ check_all (suc n) targets

-- The host was reached and the status is a success or a redirection.
abbrev IsSound : HealthCheck → Type 0
IsSound c =
    c.healthy ≡ true → (200 ≤ c.status_code) × (c.status_code < 400) × (c.error ≢ "unreachable")

sound :
    (outcome : Outcome)
    → is_success (status_of outcome) ≡ true
    → (200 ≤ status_of outcome) × (status_of outcome < 400) × (error_of outcome ≢ "unreachable")
sound (response code) h = (ground (arith, h), ground (arith, h), cc)
sound (http_error code) h = (ground (arith, h), ground (arith, h), cc)
sound unreachable h = absurd (ground (arith, h))

-- Every target that is reported as healthy was reached and answered with a status from 200 to 399.
check_all-IsSound :
    (open_url : ℕ → String → Outcome × Float) (n : ℕ) (targets : List HealthTarget)
    → All IsSound (check_all open_url n targets)
unfolding check_all check
check_all-IsSound open_url n [] = tt
check_all-IsSound open_url n (target ∷ targets) =
    (sound (open_url n target.url).0, check_all-IsSound open_url (suc n) targets)
