-- ===== src/Api.antt =====
-- api/v1alpha1: the custom resources. Of the metadata the program reads the name and the namespace.
-- A pointer and a nil map are an `Option`. What the program only copies out of the Kubernetes types
-- (quantities, the claim template) is opaque: a text or a JSON value.
use heliop.Base.{ℕ, String, Bool, Option, List}
use heliop.Base.Dict.{Dict}
use heliop.Json.{Value}

-- `int32` fields, which the program copies.
pub data ℤ : Type 0 where
  pos : ℕ → ℤ
  negsuc : ℕ → ℤ

pub record SecretKeyRef : Type 0 where
  pub name : String
  pub key : String

pub record AutheliaSecret : Type 0 where
  pub name : String
  pub secret : Option SecretKeyRef

-- `additional_config` is the raw text of the extension.
pub record AutheliaSettings : Type 0 where
  pub additional_config : Option String
  pub file_users_secret : Option SecretKeyRef
  pub secrets : List AutheliaSecret

-- `corev1.ResourceRequirements`, as far as the program looks.
pub record ResourceRequirements : Type 0 where
  pub requests : Option (Dict String)
  pub limits : Option (Dict String)

pub record AutheliaDeploymentSpec : Type 0 where
  pub replicas : Option ℤ
  pub image : String
  pub image_pull_policy : String
  pub resources : ResourceRequirements
  pub existing_secret : String
  pub volume_claim_template : Option Value

pub record AutheliaSpec : Type 0 where
  pub hostname : String
  pub deployment : AutheliaDeploymentSpec
  pub settings : AutheliaSettings

pub record AutheliaStatus : Type 0 where
  pub ready_replicas : ℤ
  pub oidc_clients : List String
  pub access_control_rules : List String

pub record Authelia : Type 0 where
  pub name : String
  pub namespace : String
  pub spec : AutheliaSpec
  pub status : AutheliaStatus

pub record AutheliaReference : Type 0 where
  pub name : String
  pub namespace : String

pub record AutheliaOauthClientSpec : Type 0 where
  pub authelia_ref : AutheliaReference
  pub client_id : String
  pub client_name : String
  pub public : Bool
  pub authorization_policy : String
  pub consent_mode : String
  pub claims_policy : String
  pub lifespan : String
  pub redirect_uris : List String
  pub scopes : List String
  pub grant_types : List String
  pub response_types : List String
  pub token_endpoint_auth_method : String
  pub userinfo_signed_response_alg : String

pub record AutheliaOauthClientStatus : Type 0 where
  pub secret_name : String

pub record AutheliaOauthClient : Type 0 where
  pub name : String
  pub namespace : String
  pub spec : AutheliaOauthClientSpec
  pub status : AutheliaOauthClientStatus
