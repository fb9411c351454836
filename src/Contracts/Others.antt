-- ===== src/Contracts/Others.antt =====
-- The other rules of internal/semantic/contracts/rulebook.go.
use zero_trust_sh.Prelude.{◌∷◌, [], true, false}
use zero_trust_sh.Prelude.Text.{codes}
use zero_trust_sh.Contracts.{Invariant}

-- CWE-94, Code Injection.
unfoldable pub rule_94 : Invariant
rule_94 = record {
  cwe = codes "CWE-94";
  name = codes "Code Injection";
  sink_anchors =
      codes "ScriptEngine.eval"
      ∷ codes "Nashorn.eval"
      ∷ codes "JavaCompiler.compile"
      ∷ codes "Compiler.compile"
      ∷ codes "GroovyShell.evaluate"
      ∷ codes "Method.invoke"
      ∷ codes "Constructor.newInstance"
      ∷ codes "eval"
      ∷ codes "compile"
      ∷ codes "__import__"
      ∷ codes "plugin.Open"
      ∷ codes "new Function"
      ∷ codes "vm.runInContext"
      ∷ codes "vm.runInNewContext"
      ∷ codes "vm.runInThisContext"
      ∷ codes "execScript"
      ∷ [];
  safe_nodes = [];
  no_sink_model = false;
  reference = codes "OWASP Top 10 2021: A03 Injection; CWE-94 specification";
}

-- CWE-918, SSRF.
unfoldable pub rule_918 : Invariant
rule_918 = record {
  cwe = codes "CWE-918";
  name = codes "SSRF";
  sink_anchors =
      codes "HTTPClient.send"
      ∷ codes "RestTemplate.getForObject"
      ∷ codes "RestTemplate.postForObject"
      ∷ codes "WebClient.get"
      ∷ codes "URLConnection.openConnection"
      ∷ codes "HttpURLConnection"
      ∷ codes "requests.get"
      ∷ codes "requests.post"
      ∷ codes "requests.request"
      ∷ codes "urllib.request.urlopen"
      ∷ codes "httpx.get"
      ∷ codes "httpx.post"
      ∷ codes "aiohttp.ClientSession"
      ∷ codes "http.Get"
      ∷ codes "http.Post"
      ∷ codes "http.Client"
      ∷ codes "http.NewRequest"
      ∷ codes "axios.get"
      ∷ codes "axios.post"
      ∷ codes "http.request"
      ∷ codes "https.request"
      ∷ codes "node-fetch"
      ∷ codes "fetch"
      ∷ [];
  safe_nodes =
      codes "urlAllowlist"
      ∷ codes "domainCheck"
      ∷ codes "urlValidate"
      ∷ codes "hostnameVerify"
      ∷ codes "isPrivateIP"
      ∷ codes "ssrfReqFilter"
      ∷ [];
  no_sink_model = false;
  reference = codes "OWASP Top 10 2021: A10 Server-Side Request Forgery; CWE-918 specification";
}

-- CWE-862, Missing Authorization.
unfoldable pub rule_862 : Invariant
rule_862 = record {
  cwe = codes "CWE-862";
  name = codes "Missing Authorization";
  sink_anchors = [];
  safe_nodes = [];
  no_sink_model = true;
  reference =
      codes
        "OWASP Top 10 2021: A01 Broken Access Control; CWE-862 specification; MITRE CWE-862 (missing-authorization detection requires business-context knowledge not derivable from static keyword/method-name matching)";
}

-- CWE-327, Broken Crypto.
unfoldable pub rule_327 : Invariant
rule_327 = record {
  cwe = codes "CWE-327";
  name = codes "Broken Crypto";
  sink_anchors =
      codes "MessageDigest.getInstance"
      ∷ codes "Cipher.getInstance"
      ∷ codes "md5"
      ∷ codes "sha1"
      ∷ codes "des"
      ∷ codes "rc4"
      ∷ codes "hashlib.md5"
      ∷ codes "hashlib.sha1"
      ∷ codes "Crypto.Cipher.DES"
      ∷ codes "Crypto.Cipher.ARC4"
      ∷ codes "crypto/md5"
      ∷ codes "crypto/sha1"
      ∷ codes "crypto/des"
      ∷ codes "crypto/rc4"
      ∷ codes "des.NewCipher"
      ∷ codes "createHash"
      ∷ codes "createCipheriv"
      ∷ [];
  safe_nodes =
      codes "crypto.SHA256"
      ∷ codes "crypto.SHA512"
      ∷ codes "cipher.AESGCM"
      ∷ codes "crypto.AES"
      ∷ codes "sha256"
      ∷ codes "sha512"
      ∷ codes "aesGcm"
      ∷ codes "hashlib.sha256"
      ∷ codes "bcrypt"
      ∷ codes "argon2"
      ∷ codes "scrypt"
      ∷ [];
  no_sink_model = false;
  reference = codes "OWASP Top 10 2021: A02 Cryptographic Failures; CWE-327 specification";
}

-- CWE-502, Unsafe Deserialization.
unfoldable pub rule_502 : Invariant
rule_502 = record {
  cwe = codes "CWE-502";
  name = codes "Unsafe Deserialization";
  sink_anchors =
      codes "ObjectInputStream.readObject"
      ∷ codes "ObjectInputStream.deserialize"
      ∷ codes "XMLDecoder"
      ∷ codes "XStream.fromXML"
      ∷ codes "Deserializer.deserialize"
      ∷ codes "Unmarshaller.unmarshal"
      ∷ codes "XmlUnmarshaller.unmarshal"
      ∷ codes "pickle.load"
      ∷ codes "pickle.loads"
      ∷ codes "yaml.load"
      ∷ codes "marshal.loads"
      ∷ codes "shelve.open"
      ∷ codes "gob.Decode"
      ∷ codes "gob.NewDecoder"
      ∷ codes "node-serialize.unserialize"
      ∷ codes "js-yaml.load"
      ∷ [];
  safe_nodes =
      codes "typeFilter"
      ∷ codes "objectFilter"
      ∷ codes "deserializeSecure"
      ∷ codes "validateDeserialize"
      ∷ codes "yaml.safe_load"
      ∷ codes "yaml.SafeLoader"
      ∷ codes "js-yaml.safeLoad"
      ∷ [];
  no_sink_model = false;
  reference =
      codes "OWASP Top 10 2021: A08 Software and Data Integrity Failures; CWE-502 specification";
}
