-- ===== src/Contracts/Injection.antt =====
-- The rules of internal/semantic/contracts/rulebook.go for SQL, commands, paths and pages.
use zero_trust_sh.Prelude.{◌∷◌, [], false}
use zero_trust_sh.Prelude.Text.{codes}
use zero_trust_sh.Contracts.{Invariant}

-- CWE-89, SQL Injection.
unfoldable pub rule_89 : Invariant
rule_89 = record {
  cwe = codes "CWE-89";
  name = codes "SQL Injection";
  sink_anchors =
      codes "executeQuery"
      ∷ codes "executeUpdate"
      ∷ codes "createNativeQuery"
      ∷ codes "createSQLQuery"
      ∷ codes "Statement.execute"
      ∷ codes "JdbcTemplate.query"
      ∷ codes "JdbcTemplate.update"
      ∷ codes "JdbcTemplate.queryForObject"
      ∷ codes "JdbcTemplate.batchUpdate"
      ∷ codes "cursor.execute"
      ∷ codes "cursor.executemany"
      ∷ codes "cursor.executescript"
      ∷ codes "connection.execute"
      ∷ codes "sqlalchemy.text"
      ∷ codes "RawSQL"
      ∷ codes "db.Query"
      ∷ codes "db.Exec"
      ∷ codes "db.QueryRow"
      ∷ codes "sqlx.Query"
      ∷ codes "sqlx.Exec"
      ∷ codes "gorm.Raw"
      ∷ codes "gorm.Exec"
      ∷ codes "pool.query"
      ∷ codes "connection.query"
      ∷ codes "sequelize.query"
      ∷ codes "knex.raw"
      ∷ codes "createQueryBuilder"
      ∷ codes "manager.query"
      ∷ [];
  safe_nodes =
      codes "PreparedStatement"
      ∷ codes "prepareStatement"
      ∷ codes "bindParams"
      ∷ codes "sqlalchemy.bindparams"
      ∷ codes "paramQuery"
      ∷ codes "parameterizedQuery"
      ∷ codes "boundParam"
      ∷ codes "knex.where"
      ∷ codes "sequelize.findOne"
      ∷ [];
  no_sink_model = false;
  reference = codes "OWASP Top 10 2021: A03 Injection; CWE-89 specification";
}

-- CWE-78, OS Command Injection.
unfoldable pub rule_78 : Invariant
rule_78 = record {
  cwe = codes "CWE-78";
  name = codes "OS Command Injection";
  sink_anchors =
      codes "Runtime.exec"
      ∷ codes "ProcessBuilder.start"
      ∷ codes "subprocess.Popen"
      ∷ codes "subprocess.call"
      ∷ codes "subprocess.run"
      ∷ codes "subprocess.check_output"
      ∷ codes "subprocess.check_call"
      ∷ codes "os.system"
      ∷ codes "os.popen"
      ∷ codes "os.spawnl"
      ∷ codes "os.spawnv"
      ∷ codes "exec.Command"
      ∷ codes "exec.CommandContext"
      ∷ codes "child_process.exec"
      ∷ codes "child_process.execSync"
      ∷ codes "child_process.spawn"
      ∷ codes "child_process.spawnSync"
      ∷ codes "child_process.execFile"
      ∷ codes "child_process.execFileSync"
      ∷ [];
  safe_nodes =
      codes "shellEscape"
      ∷ codes "shlex.quote"
      ∷ codes "shlex.split"
      ∷ codes "execFile"
      ∷ codes "commandAllowlist"
      ∷ codes "argSanitize"
      ∷ [];
  no_sink_model = false;
  reference = codes "OWASP Top 10 2021: A03 Injection; CWE-78 specification";
}

-- CWE-22, Path Traversal.
unfoldable pub rule_22 : Invariant
rule_22 = record {
  cwe = codes "CWE-22";
  name = codes "Path Traversal";
  sink_anchors =
      codes "FileWriter"
      ∷ codes "FileOutputStream"
      ∷ codes "FileInputStream"
      ∷ codes "FileReader"
      ∷ codes "new File"
      ∷ codes "Paths.get"
      ∷ codes "Files.copy"
      ∷ codes "Files.write"
      ∷ codes "Files.readAllBytes"
      ∷ codes "Files.newInputStream"
      ∷ codes "ZipEntry"
      ∷ codes "ZipInputStream"
      ∷ codes "getCanonicalPath"
      ∷ codes "getAbsolutePath"
      ∷ codes "transferTo"
      ∷ codes "file.transferTo"
      ∷ codes "OutputStream.write"
      ∷ codes "Files.newOutputStream"
      ∷ codes "Files.newBufferedWriter"
      ∷ codes "Files.createFile"
      ∷ codes "Files.createTempFile"
      ∷ codes "Files.move"
      ∷ codes "os.path.join"
      ∷ codes "pathlib.Path"
      ∷ codes "shutil.copy"
      ∷ codes "shutil.move"
      ∷ codes "shutil.copyfile"
      ∷ codes "zipfile.extract"
      ∷ codes "zipfile.extractall"
      ∷ codes "tarfile.extract"
      ∷ codes "tarfile.extractall"
      ∷ codes "send_file"
      ∷ codes "send_from_directory"
      ∷ codes "os.Open"
      ∷ codes "os.OpenFile"
      ∷ codes "os.Create"
      ∷ codes "os.ReadFile"
      ∷ codes "os.WriteFile"
      ∷ codes "ioutil.ReadFile"
      ∷ codes "ioutil.WriteFile"
      ∷ codes "filepath.Join"
      ∷ codes "http.ServeFile"
      ∷ codes "zip.OpenReader"
      ∷ codes "fs.readFile"
      ∷ codes "fs.readFileSync"
      ∷ codes "fs.writeFile"
      ∷ codes "fs.writeFileSync"
      ∷ codes "fs.createReadStream"
      ∷ codes "fs.createWriteStream"
      ∷ codes "path.join"
      ∷ codes "path.resolve"
      ∷ codes "res.sendFile"
      ∷ codes "unzipper.Extract"
      ∷ [];
  safe_nodes =
      codes "pathClean"
      ∷ codes "canonicalizePath"
      ∷ codes "pathValidate"
      ∷ codes "baseNameOnly"
      ∷ codes "normalize"
      ∷ codes "toAbsolutePath"
      ∷ codes "startsWith"
      ∷ codes "filepath.Clean"
      ∷ codes "os.path.abspath"
      ∷ codes "secure_filename"
      ∷ codes "sanitizeFilename"
      ∷ [];
  no_sink_model = false;
  reference = codes "OWASP Top 10 2021: A01 Broken Access Control; CWE-22 specification";
}

-- CWE-79, XSS.
unfoldable pub rule_79 : Invariant
rule_79 = record {
  cwe = codes "CWE-79";
  name = codes "XSS";
  sink_anchors =
      codes "PrintWriter.print"
      ∷ codes "HttpServletResponse.print"
      ∷ codes "out.println"
      ∷ codes "response.getWriter"
      ∷ codes "render_template_string"
      ∷ codes "Markup"
      ∷ codes "mark_safe"
      ∷ codes "format_html"
      ∷ codes "template.HTML"
      ∷ codes "template.JS"
      ∷ codes "Fprintf(w"
      ∷ codes "innerHTML"
      ∷ codes "outerHTML"
      ∷ codes "document.write"
      ∷ codes "dangerouslySetInnerHTML"
      ∷ codes "v-html"
      ∷ codes "insertAdjacentHTML"
      ∷ codes "response.write"
      ∷ codes "response.Send"
      ∷ [];
  safe_nodes =
      codes "htmlEscape"
      ∷ codes "outputEncode"
      ∷ codes "contextEncode"
      ∷ codes "autoEscape"
      ∷ codes "html.EscapeString"
      ∷ codes "template.HTMLEscapeString"
      ∷ codes "bleach.clean"
      ∷ codes "DOMPurify.sanitize"
      ∷ codes "textContent"
      ∷ [];
  no_sink_model = false;
  reference = codes "OWASP Top 10 2021: A03 Injection; CWE-79 specification";
}
