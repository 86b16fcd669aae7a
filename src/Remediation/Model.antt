-- ===== src/Remediation/Model.antt =====
-- The types of internal/remediation and of the findings it works on (internal/scanner/scanner.go,
-- internal/gitops/engine.go).
use aotanami.Prelude.{ℕ, Text, List}

-- scanner.Finding
pub record Finding : Type 0 where
  pub rule_type : Text
  pub severity : Text
  pub title : Text
  pub description : Text
  pub resource_kind : Text
  pub resource_namespace : Text
  pub resource_name : Text
  pub recommendation : Text

-- gitops.FileOp
pub data FileOp : Type 0 where
  create update delete : FileOp

pub record Fix : Type 0 where
  pub description : Text
  pub file_path : Text
  pub patch : Text
  pub operation : FileOp

pub record Plan : Type 0 where
  pub finding : Finding
  pub fixes : List Fix
  pub llm_analysis : Text
  pub risk_score : ℕ
  pub created_at : ℕ
