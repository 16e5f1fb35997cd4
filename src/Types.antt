-- ===== src/Types.antt =====
-- The vocabulary of the platform: src/acip/types.py. A string enumeration is a data type with one
-- constructor for each member.
use agentic_cyber_investigat.Prelude.{ℕ, Bool, true, false, String}

pub data Role : Type 0 where
  viewer investigator admin : Role

pub data InvestigationStatus : Type 0 where
  created running completed partial failed halted : InvestigationStatus

unfoldable pub terminal : InvestigationStatus → Bool
terminal InvestigationStatus.created = false
terminal InvestigationStatus.running = false
terminal _ = true

pub data RunStatus : Type 0 where
  pending running succeeded failed skipped : RunStatus

pub data TaskStatus : Type 0 where
  pending running succeeded failed cancelled : TaskStatus

pub data Severity : Type 0 where
  info low medium high critical : Severity

abbrev pub rank : Severity → ℕ
rank info = 0
rank low = 1
rank medium = 2
rank high = 3
rank critical = 4

abbrev pub severity_value : Severity → String
severity_value info = "info"
severity_value low = "low"
severity_value medium = "medium"
severity_value high = "high"
severity_value critical = "critical"

pub data AssertionClass : Type 0 where
  fact inference hypothesis unknown : AssertionClass

pub data TimeConfidence : Type 0 where
  exact derived approximate unknown : TimeConfidence

pub data TargetType : Type 0 where
  url ip domain hash file log pcap description : TargetType

pub data ArtifactKind : Type 0 where
  linux_auth_log sys_log web_server_log generic_log pcap pcap_ng : ArtifactKind
  url_response url ip hash binary_file generic_text unknown : ArtifactKind

pub data EvidenceKind : Type 0 where
  auth_event privilege_event session_event ioc web_request web_attack : EvidenceKind
  network_flow dns_query threat_intel mitre_technique : EvidenceKind

abbrev pub kind_value : EvidenceKind → String
kind_value auth_event = "auth_event"
kind_value privilege_event = "privilege_event"
kind_value session_event = "session_event"
kind_value ioc = "ioc"
kind_value web_request = "web_request"
kind_value web_attack = "web_attack"
kind_value network_flow = "network_flow"
kind_value dns_query = "dns_query"
kind_value threat_intel = "threat_intel"
kind_value mitre_technique = "mitre_technique"

pub data EntityType : Type 0 where
  user host ip domain url file hash process port : EntityType
  email technique malware threat_actor alert registry_key : EntityType

abbrev pub entity_type_value : EntityType → String
entity_type_value EntityType.user = "user"
entity_type_value EntityType.host = "host"
entity_type_value EntityType.ip = "ip"
entity_type_value EntityType.domain = "domain"
entity_type_value EntityType.url = "url"
entity_type_value EntityType.file = "file"
entity_type_value EntityType.hash = "hash"
entity_type_value EntityType.process = "process"
entity_type_value EntityType.port = "port"
entity_type_value EntityType.email = "email"
entity_type_value EntityType.technique = "technique"
entity_type_value EntityType.malware = "malware"
entity_type_value EntityType.threat_actor = "threat_actor"
entity_type_value EntityType.alert = "alert"
entity_type_value EntityType.registry_key = "registry_key"

pub data HypothesisStatus : Type 0 where
  proposed supported refuted unresolved : HypothesisStatus

pub data EvidenceRole : Type 0 where
  supports contradicts : EvidenceRole

pub data FinishReason : Type 0 where
  stop length tool_calls content_filter error : FinishReason

pub data TaskClass : Type 0 where
  planning extraction classification correlation : TaskClass
  hypothesis validation narrative chat : TaskClass

abbrev pub task_class_value : TaskClass → String
task_class_value planning = "planning"
task_class_value extraction = "extraction"
task_class_value classification = "classification"
task_class_value correlation = "correlation"
task_class_value TaskClass.hypothesis = "hypothesis"
task_class_value validation = "validation"
task_class_value narrative = "narrative"
task_class_value chat = "chat"
