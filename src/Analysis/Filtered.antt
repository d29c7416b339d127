-- ===== src/Analysis/Filtered.antt =====
-- ApplyDisplayFilter of internal/analysis/display_filter.go, on a whole report.
use gruff_go.Base.{true, codes, if◌then◌else◌}
use gruff_go.Analysis.Display.{
  DisplayFilter, filter_empty, display_loop, unfiltered, sorted_strings,
}
use gruff_go.Analysis.Report.{Report}

-- ApplyDisplayFilter
unfoldable pub apply_display_filter : {Score : Type 0} → Report Score → DisplayFilter → Report Score
apply_display_filter report f =
    if filter_empty f then record report { display_filter = unfiltered } else record report {
      findings = (display_loop report.findings f).0;
      display_filter = record {
        applied = true;
        include_rules = sorted_strings f.include_rules;
        exclude_rules = sorted_strings f.exclude_rules;
        include_pillars = sorted_strings f.include_pillars;
        exclude_pillars = sorted_strings f.exclude_pillars;
        hidden_findings = (display_loop report.findings f).1;
        caveat = codes "display filters do not change summary counts, score, or exit code";
      };
    }
